-- ===== src/Stores/Agree.antt =====
-- The local store's two ways to look an info up: by one digest over chunks of the directory, and by
-- many over its sorted listing.
use nixcached.Prelude.{
  ◌≡◌, refl, sym, ap, ◌∙◌, true, false, List, [], ◌∷◌, ◌++◌, Option, none, some, Option-cases,
  Bool-cases, inl, inr, keep, concat, Bytes, same,
}
use nixcached.Nix.{Nix, StorePath, DigestFirst}
use nixcached.HashPart.{find_object, query_path}
use nixcached.HashPart.Order.{IsSorted}
use nixcached.HashPart.Correct.{query_path-sorted}
use nixcached.NarUrl.{is_digest}
use nixcached.Upload.{NarInfo}
use nixcached.Stores.{
  Cli, answer, has_hash, path_info_from_cli, batch_nar_info_from_cli, set_info_url, sort_digests,
  batch_nar_info, query_chunks, single_result, local_nar_info,
}

-- The first of two answers.
abbrev or_else : Option StorePath → Option StorePath → Option StorePath
or_else none b = b
or_else (some p) b = some p

find_object-append :
    (nix : Nix) (dir : Bytes) (xs ys : List Bytes) (d : Bytes)
    → find_object nix dir (xs ++ ys) d
      ≡ or_else (find_object nix dir xs d) (find_object nix dir ys d)
unfolding find_object
find_object-append nix dir [] ys d = refl
find_object-append nix dir (x ∷ xs) ys d = elim (Option-cases (nix.object dir x)) [
  | inl e ↦ rw (e, find_object) (find_object-append nix dir xs ys d)
  | inr (p, e) ↦ elim (Bool-cases (same (nix.digest p) d)) [
    | inl y ↦ rw (e, find_object, y) refl
    | inr n ↦ rw (e, find_object, n) (find_object-append nix dir xs ys d)
  ]
]

module _ (cli : Cli) (nix : Nix) (dir : Bytes) where
  query_chunks-concat :
      (chunks : List (List Bytes)) (d : Bytes)
      → query_chunks cli nix dir chunks d ≡ query_path nix dir (concat chunks) false d
  unfolding query_chunks query_path
  query_chunks-concat [] d = unfold find_object in refl
  query_chunks-concat (entries ∷ chunks) d = elim (Option-cases (find_object nix dir entries d)) [
    | inl e ↦
        rw (find_object-append nix dir entries (concat chunks) d, e, query_chunks)
          (query_chunks-concat chunks d)
    | inr (p, e) ↦ rw (find_object-append nix dir entries (concat chunks) d, e, query_chunks) refl
  ]

  -- However the directory is cut into chunks, if its entries come in the order of their names and
  -- names begin with their digest, the search chunk by chunk finds what the search in the whole
  -- sorted listing finds.
  pub query_chunks-sorted :
      DigestFirst nix
      → (chunks : List (List Bytes)) (d : Bytes) → IsSorted (concat chunks)
      → query_chunks cli nix dir chunks d ≡ query_path nix dir (concat chunks) true d
  query_chunks-sorted law chunks d s =
      query_chunks-concat chunks d ∙ sym (query_path-sorted nix law dir d (concat chunks) s)

  single_result-answer :
      (r : Option (List NarInfo)) (info : NarInfo)
      → single_result cli nix dir r ≡ answer info
      → (i : NarInfo) × (r ≡ some (i ∷ [])) × (has_hash i ≡ true) × (set_info_url cli i ≡ info)
  unfolding single_result
  single_result-answer none info h = cc h
  single_result-answer (some []) info h = cc h
  single_result-answer (some (i ∷ [])) info h = elim (Bool-cases (has_hash i)) [
    | inl y ↦ (i, refl, y, cc (rw y at h))
    | inr n ↦ cc (rw n at h)
  ]
  single_result-answer (some (i ∷ j ∷ is)) info h = cc h

  local_nar_info-answer :
      (chunks : List (List Bytes)) (d : Bytes) (info : NarInfo)
      → local_nar_info cli nix dir chunks d ≡ answer info
      → (p : StorePath) × (query_chunks cli nix dir chunks d ≡ some p)
        × (single_result cli nix dir (path_info_from_cli cli (nix.is_derivation p) false (p ∷ []))
            ≡ answer info)
  unfolding local_nar_info
  local_nar_info-answer chunks d info h = elim (Bool-cases (is_digest nix d)) [
    | inr n ↦ cc (rw (n, local_nar_info) at h)
    | inl y ↦ elim (Option-cases (query_chunks cli nix dir chunks d)) [
      | inl e ↦ cc (rw (y, local_nar_info, e) at h)
      | inr (p, e) ↦ (p, e, rw (y, local_nar_info, e) at h)
    ]
  ]

  keep_one : (i : NarInfo) → has_hash i ≡ true → keep has_hash (i ∷ []) ≡ i ∷ []
  keep_one i t = rw t refl

  derivation_of_one :
      (p : StorePath) (i : NarInfo)
      → path_info_from_cli cli true false (p ∷ []) ≡ some (i ∷ [])
      → has_hash i ≡ true
      → batch_nar_info_from_cli cli [] (p ∷ []) ≡ some (i ∷ [])
  unfolding batch_nar_info_from_cli
  derivation_of_one p i r t =
      let none_asked : path_info_from_cli cli false false [] ≡ some [] =
        unfold path_info_from_cli in refl in
      rw (none_asked, batch_nar_info_from_cli, r) (ap some (keep_one i t))

  output_of_one :
      (p : StorePath) (i : NarInfo)
      → path_info_from_cli cli false false (p ∷ []) ≡ some (i ∷ [])
      → has_hash i ≡ true
      → batch_nar_info_from_cli cli (p ∷ []) [] ≡ some (i ∷ [])
  unfolding batch_nar_info_from_cli
  output_of_one p i r t =
      let none_asked : path_info_from_cli cli true false [] ≡ some [] =
        unfold path_info_from_cli in refl in
      rw (r, batch_nar_info_from_cli, none_asked) (ap (λ l. some (l ++ [])) (keep_one i t))

  batch_of_one :
      (entries : List Bytes) (d : Bytes) (p : StorePath) (i : NarInfo)
      → query_path nix dir entries true d ≡ some p
      → path_info_from_cli cli (nix.is_derivation p) false (p ∷ []) ≡ some (i ∷ [])
      → has_hash i ≡ true
      → batch_nar_info cli nix dir (some entries) (d ∷ []) ≡ some (set_info_url cli i ∷ [])
  unfolding batch_nar_info sort_digests
  batch_of_one entries d p i q r t = elim (Bool-cases (nix.is_derivation p)) [
    | inl y ↦ rw (q, sort_digests, y, derivation_of_one p i (rw y at r) t, batch_nar_info) refl
    | inr n ↦ rw (q, sort_digests, n, output_of_one p i (rw n at r) t, batch_nar_info) refl
  ]

  -- If looking up one digest in the local store yields an info, a batch of that digest yields the
  -- same info and no other, on a directory whose entries come in the order of their names and whose
  -- names begin with their digest.
  pub local_nar_info-batch :
      DigestFirst nix
      → (chunks : List (List Bytes)) (d : Bytes) (info : NarInfo) → IsSorted (concat chunks)
      → local_nar_info cli nix dir chunks d ≡ answer info
      → batch_nar_info cli nix dir (some (concat chunks)) (d ∷ []) ≡ some (info ∷ [])
  local_nar_info-batch law chunks d info s h =
      let (p, q, r) = local_nar_info-answer chunks d info h in
      let (i, e, t, u) =
        single_result-answer (path_info_from_cli cli (nix.is_derivation p) false (p ∷ [])) info r in
      batch_of_one (concat chunks) d p i (sym (query_chunks-sorted law chunks d s) ∙ q) e t
      ∙ ap (λ x. some (x ∷ [])) u
