-- ===== src/Prelude/Text.antt =====
-- Go strings as lists of bytes, with the functions of package strings that the program calls.
use Prim.Native.Nat.{ℕ}
use Prim.Native.Char.{code}
use Prim.Native.String.{String}
use mathlib.Core.Path.{◌≡◌, refl}
use mathlib.Core.Logic.{inl, inr}
use mathlib.Core.Bool.{Bool, true, false, ◌&&◌, ◌||◌}
use mathlib.Core.List.{List, [], ◌∷◌, ◌++◌}
use mathlib.Core.Option.{Option, none, some}
use native.Mathlib.Omega.{arith}
use nixcached.Prelude.Tests.{◌==◌, if◌then◌else◌, Option-cases}

abbrev pub Bytes : Type 0
Bytes = List ℕ

-- The bytes of an ASCII literal.
abbrev pub codes : String → Bytes
codes String.[] = []
codes (String.◌∷◌ c s) = code c ∷ codes s

-- `a == b` on strings.
unfoldable pub same : Bytes → Bytes → Bool
same [] [] = true
same [] (d ∷ t) = false
same (c ∷ s) [] = false
same (c ∷ s) (d ∷ t) = c == d && same s t

pub same_sound : (s t : Bytes) → same s t ≡ true → s ≡ t
unfolding same
same_sound [] [] h = refl
same_sound [] (d ∷ t) h = cc
same_sound (c ∷ s) [] h = cc
same_sound (c ∷ s) (d ∷ t) h = ground (arith, same_sound s t)

pub same_refl : (s : Bytes) → same s s ≡ true
unfolding same
same_refl [] = refl
same_refl (c ∷ s) = ground (arith, same_refl s)

-- `strings.HasPrefix(s, prefix)`, the prefix first.
unfoldable pub has_prefix : Bytes → Bytes → Bool
has_prefix [] s = true
has_prefix (c ∷ p) [] = false
has_prefix (c ∷ p) (d ∷ s) = c == d && has_prefix p s

-- `strings.Contains` for a string of one byte.
unfoldable pub contains_byte : ℕ → Bytes → Bool
contains_byte b [] = false
contains_byte b (c ∷ s) = c == b || contains_byte b s

-- `strings.CutPrefix(s, prefix)`: the rest, if the prefix is there.
unfoldable pub cut_prefix : Bytes → Bytes → Option Bytes
cut_prefix [] s = some s
cut_prefix (c ∷ p) [] = none
cut_prefix (c ∷ p) (d ∷ s) = if c == d then cut_prefix p s else none

-- `strings.CutSuffix(s, suffix)`: what stands before the suffix, if it is there.
unfoldable pub cut_suffix : Bytes → Bytes → Option Bytes
unfolding same
cut_suffix suffix [] = if same suffix [] then some [] else none
cut_suffix suffix (c ∷ s) =
    if same suffix (c ∷ s)
    then some []
    else elim (cut_suffix suffix s) [ none ↦ none | some r ↦ some (c ∷ r) ]

pub cut_prefix_sound : (p s : Bytes) {r : Bytes} → cut_prefix p s ≡ some r → s ≡ p ++ r
unfolding cut_prefix
cut_prefix_sound [] s h = ground arith
cut_prefix_sound (c ∷ p) [] h = cc
cut_prefix_sound (c ∷ p) (d ∷ s) {r} h = ground (arith, cut_prefix_sound p s {r = r})

pub cut_prefix-append : (p r : Bytes) → cut_prefix p (p ++ r) ≡ some r
unfolding cut_prefix
cut_prefix-append [] r = refl
cut_prefix-append (c ∷ p) r = ground (arith, cut_prefix-append p r)

pub has_prefix-append : (p r : Bytes) → has_prefix p (p ++ r) ≡ true
unfolding has_prefix
has_prefix-append [] r = refl
has_prefix-append (c ∷ p) r = ground (arith, has_prefix-append p r)

pub cut_suffix_sound : (p s : Bytes) {r : Bytes} → cut_suffix p s ≡ some r → s ≡ r ++ p
unfolding cut_suffix
cut_suffix_sound p [] {r} h = ground (arith, same_sound p [])
cut_suffix_sound p (c ∷ s) {r} h = elim (Option-cases (cut_suffix p s)) [
  | inl e ↦ ground (arith, same_sound p (c ∷ s))
  | inr (q, e) ↦ ground (arith, same_sound p (c ∷ s), cut_suffix_sound p s e)
]
