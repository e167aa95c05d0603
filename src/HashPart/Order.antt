-- ===== src/HashPart/Order.antt =====
-- The order of Go strings, and prefixes in it.
use nixcached.Prelude.{◌≡◌, refl, true, List, [], ◌∷◌, arith, All, Bytes, has_prefix}
use nixcached.HashPart.{bytes_le}

pub bytes_le_refl : (s : Bytes) → bytes_le s s ≡ true
unfolding bytes_le
bytes_le_refl [] = refl
bytes_le_refl (c ∷ s) = ground (arith, bytes_le_refl s)

pub bytes_le_trans :
    (s t u : Bytes) → bytes_le s t ≡ true → bytes_le t u ≡ true → bytes_le s u ≡ true
unfolding bytes_le
bytes_le_trans [] t u h k = refl
bytes_le_trans (c ∷ s) [] u h k = cc
bytes_le_trans (c ∷ s) (d ∷ t) [] h k = cc
bytes_le_trans (c ∷ s) (d ∷ t) (e ∷ u) h k = ground (arith, bytes_le_trans s t u)

-- A text comes before its extensions.
pub bytes_le_of_prefix : (p s : Bytes) → has_prefix p s ≡ true → bytes_le p s ≡ true
unfolding bytes_le has_prefix
bytes_le_of_prefix [] s h = refl
bytes_le_of_prefix (c ∷ p) [] h = cc
bytes_le_of_prefix (c ∷ p) (d ∷ s) h = ground (arith, bytes_le_of_prefix p s)

-- What lies between a text and one of its extensions is an extension too.
pub has_prefix_between :
    (p s t : Bytes)
    → bytes_le p s ≡ true
    → bytes_le s t ≡ true
    → has_prefix p t ≡ true
    → has_prefix p s ≡ true
unfolding bytes_le has_prefix
has_prefix_between [] s t h k l = refl
has_prefix_between (c ∷ p) [] t h k l = cc
has_prefix_between (c ∷ p) (d ∷ s) [] h k l = cc
has_prefix_between (c ∷ p) (d ∷ s) (e ∷ t) h k l = ground (arith, has_prefix_between p s t)

-- A listing in the order of its names.
abbrev pub IsSorted : List Bytes → Type 0
IsSorted [] = Unit
IsSorted (e ∷ es) = All (λ f. bytes_le e f ≡ true) es × IsSorted es
