-- ===== src/HashPart/Correct.antt =====
-- On a sorted listing the binary search finds what the plain loop over all entries finds.
use nixcached.Prelude.{
  ℕ, zero, suc, ◌≤◌, ◌≡◌, refl, sym, ap, ◌∙◌, true, false, List, [], ◌∷◌, ◌++◌, none, arith, length,
  take, drop, take-append-drop, All, Bytes, same, same_sound, has_prefix, inl, inr, Bool-cases,
  Option-cases,
}
use nixcached.Nix.{Nix, DigestFirst}
use nixcached.HashPart.{
  bytes_le, sort_search, at_least, run_length, narrow, find_object, query_path,
}
use nixcached.HashPart.Order.{bytes_le_trans, bytes_le_of_prefix, has_prefix_between, IsSorted}
use nixcached.HashPart.Search.{LowSide, HighSide, sort_search_lem}

abbrev Misses : Bytes → Bytes → Type 0
Misses d e = has_prefix d e ≡ false

abbrev Below : Bytes → Bytes → Type 0
Below d e = bytes_le d e ≡ false

abbrev FromOn : Bytes → Bytes → Type 0
FromOn d e = bytes_le d e ≡ true

-- Before the border every entry is below the digest.
take-Below :
    (d : Bytes) (es : List Bytes) (k : ℕ)
    → IsSorted es
    → k ≤ length es
    → LowSide (at_least es d) k
    → All (Below d) (take k es)
unfolding at_least
take-Below d es zero s b low = tt
take-Below d [] (suc k) s b low = tt
take-Below d (e ∷ es) (suc zero) s b low = (low, tt)
take-Below d (e ∷ []) (suc (suc k)) s b low = absurd (omega arith)
take-Below d (e ∷ f ∷ es) (suc (suc k)) (h, s) b low =
    let rest : All (Below d) (f ∷ take k es) = take-Below d (f ∷ es) (suc k) s (omega arith) low in
    (ground (arith, bytes_le_trans d e f), rest)

FromOn-All :
    (d e : Bytes) (es : List Bytes)
    → FromOn d e
    → All (λ f. bytes_le e f ≡ true) es
    → All (FromOn d) es
FromOn-All d e [] h all = tt
FromOn-All d e (f ∷ es) h (g, all) = (bytes_le_trans d e f h g, FromOn-All d e es h all)

-- From the border on every entry is at least the digest.
drop-FromOn :
    (d : Bytes) (es : List Bytes) (k : ℕ)
    → IsSorted es
    → HighSide (at_least es d) (length es) k
    → All (FromOn d) (drop k es)
unfolding at_least
drop-FromOn d [] zero s high = tt
drop-FromOn d [] (suc k) s high = tt
drop-FromOn d (e ∷ es) zero (h, s) (inl z) = absurd (omega arith)
drop-FromOn d (e ∷ es) zero (h, s) (inr g) = (g, FromOn-All d e es g h)
drop-FromOn d (e ∷ es) (suc k) (h, s) (inl z) = drop-FromOn d es k s (inl (omega arith))
drop-FromOn d (e ∷ es) (suc k) (h, s) (inr g) = drop-FromOn d es k s (inr g)

drop-IsSorted : (es : List Bytes) (k : ℕ) → IsSorted es → IsSorted (drop k es)
drop-IsSorted es zero s = s
drop-IsSorted [] (suc k) s = tt
drop-IsSorted (e ∷ es) (suc k) (h, s) = drop-IsSorted es k s

Below-Misses : (d : Bytes) (es : List Bytes) → All (Below d) es → All (Misses d) es
Below-Misses d [] h = tt
Below-Misses d (e ∷ es) (b, h) = (ground (arith, bytes_le_of_prefix d e), Below-Misses d es h)

after-Misses :
    (d e : Bytes) (es : List Bytes)
    → FromOn d e
    → Misses d e
    → All (λ f. bytes_le e f ≡ true) es
    → All (Misses d) es
after-Misses d e [] h m all = tt
after-Misses d e (f ∷ es) h m (g, all) =
    (ground (arith, has_prefix_between d e f), after-Misses d e es h m all)

-- Behind the run no entry begins with the digest.
run_length-Misses :
    (d : Bytes) (es : List Bytes)
    → IsSorted es
    → All (FromOn d) es
    → All (Misses d) (drop (run_length d es) es)
unfolding run_length
run_length-Misses d [] s h = tt
run_length-Misses d (e ∷ es) (g, s) (f, h) = elim (Bool-cases (has_prefix d e)) [
  | inl e' ↦ rw e' (run_length-Misses d es s h)
  | inr m ↦ rw m (m, after-Misses d e es f m g)
]

module _ (nix : Nix) (law : DigestFirst nix) (dir d : Bytes) where
  -- An entry that does not begin with the digest is passed over.
  find_object-miss :
      (e : Bytes) (es : List Bytes)
      → Misses d e
      → find_object nix dir (e ∷ es) d ≡ find_object nix dir es d
  unfolding find_object
  find_object-miss e es m = elim (Option-cases (nix.object dir e)) [
    | inl o ↦ rw (o, find_object)
    | inr (p, o) ↦ elim (Bool-cases (same (nix.digest p) d)) [
      | inr n ↦ rw (o, find_object, n)
      | inl y ↦ cc (law dir e p o, same_sound (nix.digest p) d y, m)
    ]
  ]

  find_object-append_left :
      (xs ys : List Bytes)
      → All (Misses d) xs
      → find_object nix dir (xs ++ ys) d ≡ find_object nix dir ys d
  find_object-append_left [] ys h = refl
  find_object-append_left (e ∷ xs) ys (m, h) =
      find_object-miss e (xs ++ ys) m ∙ find_object-append_left xs ys h

  find_object-All : (ys : List Bytes) → All (Misses d) ys → find_object nix dir ys d ≡ none
  find_object-All [] h = unfold find_object in refl
  find_object-All (e ∷ ys) (m, h) = find_object-miss e ys m ∙ find_object-All ys h

  find_object-append_right :
      (xs ys : List Bytes)
      → All (Misses d) ys
      → find_object nix dir (xs ++ ys) d ≡ find_object nix dir xs d
  unfolding find_object
  find_object-append_right [] ys h = find_object-All ys h
  find_object-append_right (e ∷ xs) ys h = ground (arith, find_object-append_right xs ys h)

  -- On a listing in the order of names, and where names begin with their digest, the search that
  -- narrows the listing first returns what the plain loop over the whole listing returns.
  pub query_path-sorted :
      (es : List Bytes) → IsSorted es → query_path nix dir es true d ≡ query_path nix dir es false d
  unfolding query_path narrow
  query_path-sorted es s =
      let k = sort_search (length es) (at_least es d) in
      let (b, low, high) = sort_search_lem (length es) (at_least es d) in
      let n = run_length d (drop k es) in
      let behind =
        run_length-Misses d (drop k es) (drop-IsSorted es k s) (drop-FromOn d es k s high) in
      sym (find_object-append_right (take n (drop k es)) (drop n (drop k es)) behind)
      ∙ ap (λ l. find_object nix dir l d) (take-append-drop n (drop k es))
      ∙ sym (
          find_object-append_left (take k es) (drop k es)
            (Below-Misses d _ (take-Below d es k s b low)))
      ∙ ap (λ l. find_object nix dir l d) (take-append-drop k es)
