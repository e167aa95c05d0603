-- ===== src/HashPart/Search.antt =====
-- `sort.Search` ends at the border between `false` and `true`.
use nixcached.Prelude.{
  ℕ, zero, suc, ◌+◌, ◌/◌, ◌≤◌, ◌≡◌, refl, Bool, true, false, arith, ltb, ◌⊎◌, inl, inr, Bool-cases,
}
use nixcached.HashPart.{search_loop, sort_search}

abbrev pub LowSide : (ℕ → Bool) → ℕ → Type 0
LowSide f zero = Unit
LowSide f (suc i) = f i ≡ false

abbrev pub HighSide : (ℕ → Bool) → ℕ → ℕ → Type 0
HighSide f n j = (j ≡ n) ⊎ (f j ≡ true)

search_loop_lem :
    (fuel : ℕ) (f : ℕ → Bool) (n i j : ℕ)
    → j ≤ fuel + i
    → i ≤ j
    → j ≤ n
    → LowSide f i
    → HighSide f n j
    → (search_loop fuel f i j ≤ n)
      × LowSide f (search_loop fuel f i j)
      × HighSide f n (search_loop fuel f i j)
unfolding search_loop
search_loop_lem zero f n i j e ij jn low high =
    let m : i ≡ j = omega arith in (omega arith, low, rw m high)
search_loop_lem (suc fuel) f n i j e ij jn low high = elim (Bool-cases (ltb i j)) [
  | inr stop ↦ let m : i ≡ j = ground arith in rw stop (omega arith, low, rw m high)
  | inl more ↦ elim (Bool-cases (f ((i + j) / 2))) [
    | inl passes ↦
        rw (more, passes)
          (search_loop_lem fuel f n i ((i + j) / 2) (ground arith) (ground arith) (ground arith) low
            (inr passes))
    | inr fails ↦
        rw (more, fails)
          (search_loop_lem fuel f n (suc ((i + j) / 2)) j (ground arith) (ground arith) jn fails
            high)
  ]
]

pub sort_search_lem :
    (n : ℕ) (f : ℕ → Bool)
    → (sort_search n f ≤ n) × LowSide f (sort_search n f) × HighSide f n (sort_search n f)
unfolding sort_search
sort_search_lem n f =
    search_loop_lem n f n 0 n (omega arith) (omega arith) (omega arith) tt (inl refl)
