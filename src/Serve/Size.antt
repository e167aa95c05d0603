-- ===== src/Serve/Size.antt =====
-- `formatSize` (serve.go), which the templates use for sizes. The printing of a whole number and the
-- conversion of a number that does not fit into 16 bits are arguments.
use native.Mathlib.Nat.{pow-le-pow_right}
use nixcached.Prelude.{
  ℕ, ℤ, pos, negsuc, suc, ◌+◌, ◌*◌, ◌/◌, ◌%◌, ◌^◌, ◌≤◌, ◌<◌, ◌≡◌, ◌≢◌, refl, ap, ◌⊎◌, inl, inr,
  arith, ◌++◌, ltb, lt→ltb, ◌==◌, if◌then◌else◌, if_rule, Bytes, codes,
}

pub data SizeUnit : Type 0 where
  kib : SizeUnit
  mib : SizeUnit
  gib : SizeUnit
  tib : SizeUnit

abbrev pub bytes_in : SizeUnit → ℕ
bytes_in kib = 1024
bytes_in mib = 1048576
bytes_in gib = 1073741824
bytes_in tib = 1099511627776

abbrev pub unit_name : SizeUnit → Bytes
unit_name kib = codes " KiB"
unit_name mib = codes " MiB"
unit_name gib = codes " GiB"
unit_name tib = codes " TiB"

-- The whole number next to a quotient; of two, the even one.
unfoldable pub round_quotient : ℕ → ℕ → ℕ
round_quotient a b =
    let q = a / b in
    let r = a % b in
    if ltb (2 * r) b then q else if ltb b (2 * r) then suc q else if q % 2 == 0 then q else suc q

-- `float64(n)` for a number of 64 bits: 53 binary digits are kept.
unfoldable pub to_float : ℕ → ℕ → ℕ
to_float ℕ.zero n = n
to_float (suc k) n =
    let shorter = to_float k n in
    if ltb n (2 ^ (53 + k)) then shorter else round_quotient n (2 ^ suc k) * 2 ^ suc k

-- What is shown: a number of bytes, or tenths of a unit.
pub data Shown : Type 0 where
  one_byte : Shown
  some_bytes : ℕ → Shown
  tenths : ℕ → SizeUnit → Shown

-- `x/(1<<k)` with one digit behind the point.
abbrev pub in_unit : ℕ → SizeUnit → Shown
in_unit x u = tenths (round_quotient (10 * x) (bytes_in u)) u

unfoldable pub shown_size : ℕ → Shown
shown_size x =
    if x == 1
    then one_byte
    else if ltb x 512
    then some_bytes x
    else if ltb x 1048576
    then in_unit x kib
    else if ltb x 1073741824
    then in_unit x mib
    else if ltb x 1099511627776
    then in_unit x gib
    else in_unit x tib

module _ (format_int : ℤ → Bytes) (to_int16 : ℤ → ℤ) where
  unfoldable pub print : Shown → Bytes
  print one_byte = format_int (to_int16 (pos 1)) ++ codes " byte"
  print (some_bytes n) = format_int (to_int16 (pos n)) ++ codes " bytes"
  print (tenths t u) =
      format_int (pos (t / 10)) ++ (codes "." ++ (format_int (pos (t % 10)) ++ unit_name u))

  -- A negative number is below all limits.
  unfoldable pub format_size : ℤ → Bytes
  format_size (pos n) = print (shown_size (to_float 11 n))
  format_size (negsuc ℕ.zero) = format_int (to_int16 (negsuc 0)) ++ codes " byte"
  format_size (negsuc (suc n)) = format_int (to_int16 (negsuc (suc n))) ++ codes " bytes"

-- The unit for a size: the largest one that is not above it, but KiB at least and TiB at most.
abbrev pub IsUnitFor : ℕ → SizeUnit → Type 0
IsUnitFor n kib = n < 1048576
IsUnitFor n mib = (1048576 ≤ n) × (n < 1073741824)
IsUnitFor n gib = (1073741824 ≤ n) × (n < 1099511627776)
IsUnitFor n tib = 1099511627776 ≤ n

-- Tenths of a unit that are half a tenth away from a size at most.
abbrev pub IsNear : ℕ → ℕ → SizeUnit → Type 0
IsNear n t u =
    (20 * n ≤ 2 * (t * bytes_in u) + bytes_in u) × (2 * (t * bytes_in u) ≤ 20 * n + bytes_in u)

in_unit-IsNear : (n : ℕ) (u : SizeUnit) → IsNear n (round_quotient (10 * n) (bytes_in u)) u
unfolding round_quotient
in_unit-IsNear n kib = (ground arith, ground arith)
in_unit-IsNear n mib = (ground arith, ground arith)
in_unit-IsNear n gib = (ground arith, ground arith)
in_unit-IsNear n tib = (ground arith, ground arith)

-- What a size is shown as.
abbrev pub Shows : (ℤ → Bytes) → ℕ → Bytes → Type 0
Shows format_int n out =
    ((n ≡ 1) × (out ≡ format_int (pos 1) ++ codes " byte"))
    ⊎ (((n ≢ 1) × (n < 512) × (out ≡ format_int (pos n) ++ codes " bytes"))
        ⊎ ((512 ≤ n)
            × ((t : ℕ) × (u : SizeUnit) × (out
                  ≡ format_int (pos (t / 10))
                    ++ (codes "." ++ (format_int (pos (t % 10)) ++ unit_name u)))
                × IsNear n t u
                × IsUnitFor n u)))

module _ (format_int : ℤ → Bytes) (to_int16 : ℤ → ℤ)
    (exact : (m : ℕ) → m < 32768 → to_int16 (pos m) ≡ pos m) where
  in_unit-Shows :
      (n : ℕ) (u : SizeUnit)
      → 512 ≤ n
      → IsUnitFor n u
      → Shows format_int n (print format_int to_int16 (in_unit n u))
  unfolding print
  in_unit-Shows n u h k =
      inr (inr (h, (round_quotient (10 * n) (bytes_in u), u, refl, in_unit-IsNear n u, k)))

  shown_size-Shows : (n : ℕ) → Shows format_int n (print format_int to_int16 (shown_size n))
  unfolding shown_size print
  shown_size-Shows n =
      if_rule (λ s. Shows format_int n (print format_int to_int16 s)) (n == 1) _ _
        (λ a. inl (ground arith, ap (λ x. format_int x ++ codes " byte") (exact 1 (omega arith))))
        (λ a.
          if_rule (λ s. Shows format_int n (print format_int to_int16 s)) (ltb n 512) _ _
            (λ b. inr (
              inl (
                λ e. ground arith,
                ground arith,
                ap (λ x. format_int x ++ codes " bytes") (exact n (ground arith)),
              )))
            (λ b.
              if_rule (λ s. Shows format_int n (print format_int to_int16 s)) (ltb n 1048576) _ _
                (λ c. in_unit-Shows n kib (ground arith) (ground arith))
                (λ c.
                  if_rule (λ s. Shows format_int n (print format_int to_int16 s)) (ltb n 1073741824)
                    _ _ (λ d. in_unit-Shows n mib (ground arith) (ground arith, ground arith))
                    (λ d.
                      if_rule (λ s. Shows format_int n (print format_int to_int16 s))
                        (ltb n 1099511627776) _ _
                        (λ e. in_unit-Shows n gib (ground arith) (ground arith, ground arith))
                        (λ e. in_unit-Shows n tib (ground arith) (ground arith))))))

to_float-exact : (k n : ℕ) → n < 9007199254740992 → to_float k n ≡ n
unfolding to_float
to_float-exact ℕ.zero n h = refl
to_float-exact (suc k) n h =
    let big : 2 ^ 53 ≤ 2 ^ (53 + k) =
      pow-le-pow_right {n = 2} (omega arith) {i = 53} (omega arith) in
    rw (lt→ltb n (2 ^ (53 + k)) (omega (arith, h, big)), to_float) (to_float-exact k n h)

-- A size of 1 is shown as "1 byte", any other below 512 as its number of bytes, and one from 512 on,
-- if it is below 2^53, in tenths of a unit, half a tenth away at most. The unit is KiB below 2^20, MiB
-- below 2^30, GiB below 2^40, and else TiB. Numbers that fit into 16 bits are converted exactly.
pub format_size-Shows :
    (format_int : ℤ → Bytes) (to_int16 : ℤ → ℤ)
    → ((m : ℕ) → m < 32768 → to_int16 (pos m) ≡ pos m)
    → (n : ℕ) → n < 9007199254740992
    → Shows format_int n (format_size format_int to_int16 (pos n))
unfolding format_size
format_size-Shows format_int to_int16 exact n h =
    rw (to_float-exact 11 n h) (shown_size-Shows format_int to_int16 exact n)
