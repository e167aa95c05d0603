-- ===== src/UiCache/Sums.antt =====
-- What the sums of uicache/index.sql come to: the rows of one digest are its own references, since
-- the recursive select gives every row the digest of the object that has the reference.
use nixcached.Prelude.{
  ℕ, ◌+◌, ◌≡◌, ◌⊎◌, refl, ap, ◌∙◌, true, false, arith, List, [], ◌∷◌, none, some, Option-cases,
  Bool-cases, inl, inr, Bytes, same, same_sound, map, keep, keep-append,
}
use nixcached.UiCache.{Row, Database}
use nixcached.UiCache.Sql.{Formats, is_member, store_path_digest}
use nixcached.UiCache.Closure.{
  Requisite, is_other, fresh, push_rows, references_of, first_rows, rows_of, next_rows, requisites,
  size_of, sum_of, file_size_or_zero, closure_nar_size, closure_file_size,
}
use nixcached.UiCache.Turns.{requisites_rule}
use nixcached.UiCache.OwnRows.{own, own-fresh, own-push_rows, fresh-Within, fresh_known}

module _ (fm : Formats) where
  own-pairs : (d e : Bytes) (rs : List Bytes) → same e d ≡ false → own d (map (λ r. (e, r)) rs) ≡ []
  own-pairs d e [] h = refl
  own-pairs d e (r ∷ rs) h = rw h (own-pairs d e rs h)

  own-pairs_all :
      (d e : Bytes) (rs : List Bytes)
      → same e d ≡ true
      → own d (map (λ r. (e, r)) rs) ≡ map (λ r. (e, r)) rs
  own-pairs_all d e [] h = refl
  own-pairs_all d e (r ∷ rs) h = rw h (ap (λ ps. (e, r) ∷ ps) (own-pairs_all d e rs h))

  own-rows_of : (d : Bytes) (rows : List Row) → own d (rows_of fm d rows) ≡ rows_of fm d rows
  unfolding rows_of references_of
  own-rows_of d [] = refl
  own-rows_of d (row ∷ rows) = elim (Bool-cases (same row.path_digest d)) [
    | inl e ↦ rw e (
        keep-append _ (references_of fm row) (rows_of fm d rows)
        ∙ rw
            (
              own-pairs_all d row.path_digest (keep (is_other fm row.path_digest) row.references) e,
              own-rows_of d rows,
            )
            refl)
    | inr e ↦ rw e (own-rows_of d rows)
  ]

  -- All rows of a select belong to one digest.
  own-rows_of_other :
      (d d' : Bytes) (rows : List Row) → same d' d ≡ false → own d (rows_of fm d' rows) ≡ []
  unfolding rows_of references_of
  own-rows_of_other d d' [] h = refl
  own-rows_of_other d d' (row ∷ rows) h = elim (Bool-cases (same row.path_digest d')) [
    | inl e ↦ rw e (
        keep-append _ (references_of fm row) (rows_of fm d' rows)
        ∙ rw
            (own-pairs d row.path_digest (keep (is_other fm row.path_digest) row.references)
              (ap (λ s. same s d) (same_sound row.path_digest d' e) ∙ h))
            (own-rows_of_other d d' rows h))
    | inr e ↦ rw e (own-rows_of_other d d' rows h)
  ]

  own-first_rows :
      (d : Bytes) (relevant : List Bytes) (rows : List Row)
      → is_member d relevant ≡ true
      → own d (first_rows fm relevant rows) ≡ rows_of fm d rows
  unfolding first_rows rows_of references_of
  own-first_rows d relevant [] m = refl
  own-first_rows d relevant (row ∷ rows) m = elim (Bool-cases (same row.path_digest d)) [
    | inl e ↦
        rw (e, ap (λ s. is_member s relevant) (same_sound row.path_digest d e) ∙ m)
          (keep-append _ (references_of fm row) (first_rows fm relevant rows)
            ∙ rw
                (
                  own-pairs_all d row.path_digest
                      (keep (is_other fm row.path_digest) row.references) e,
                  own-first_rows d relevant rows m,
                )
                refl)
    | inr e ↦ elim (Bool-cases (is_member row.path_digest relevant)) [
      | inl f ↦
          rw (e, f)
            (keep-append _ (references_of fm row) (first_rows fm relevant rows)
              ∙ rw
                  (own-pairs d row.path_digest (keep (is_other fm row.path_digest) row.references)
                    e)
                  (own-first_rows d relevant rows m))
      | inr f ↦ rw (e, f) (own-first_rows d relevant rows m)
    ]
  ]

  -- The rows that stand for an object on the page.
  abbrev direct_rows : Database → Bytes → List Requisite
  direct_rows db d = push_rows (fresh [] (rows_of fm d db.objects)) []

  own-next_rows :
      (d : Bytes) (rows : List Row) (p : Requisite)
      → (own d (next_rows fm rows p) ≡ []) ⊎ (own d (next_rows fm rows p) ≡ rows_of fm d rows)
  unfolding next_rows
  own-next_rows d rows p = elim (Option-cases (store_path_digest fm (some p.1))) [
    | inl n ↦ inl (rw (n, next_rows) refl)
    | inr (d', e) ↦ elim (Bool-cases (same d' d)) [
      | inl f ↦ inr (
          rw (e, next_rows)
            (ap (λ s. own d (rows_of fm s rows)) (same_sound d' d f) ∙ own-rows_of d rows))
      | inr f ↦ inl (rw (e, next_rows) (own-rows_of_other d d' rows f))
    ]
  ]

  direct_rows_stay :
      (db : Database) (d : Bytes) (seen : List Requisite) (p : Requisite)
      → own d seen ≡ direct_rows db d
      → own d (push_rows (fresh seen (next_rows fm db.objects p)) seen) ≡ direct_rows db d
  direct_rows_stay db d seen p h =
      let next = next_rows fm db.objects p in
      own-push_rows d (fresh seen next) seen
      ∙ ap (λ ps. push_rows ps (own d seen)) (own-fresh d seen next)
      ∙ ap (λ ps. push_rows (fresh ps (own d next)) ps) h
      ∙ elim (own-next_rows d db.objects p) [
        | inl e ↦
            ap (λ ps. push_rows (fresh (direct_rows db d) ps) (direct_rows db d)) e
            ∙ ap (λ ps. push_rows ps (direct_rows db d)) (fresh_known (direct_rows db d) [] tt)
        | inr e ↦
            ap (λ ps. push_rows (fresh (direct_rows db d) ps) (direct_rows db d)) e
            ∙ ap (λ ps. push_rows ps (direct_rows db d))
                (fresh_known (direct_rows db d) (rows_of fm d db.objects)
                  (fresh-Within [] (rows_of fm d db.objects)))
      ]

  direct_rows_start :
      (db : Database) (d : Bytes) (relevant : List Bytes)
      → is_member d relevant ≡ true
      → own d (push_rows (fresh [] (first_rows fm relevant db.objects)) []) ≡ direct_rows db d
  direct_rows_start db d relevant m =
      let first = first_rows fm relevant db.objects in
      own-push_rows d (fresh [] first) []
      ∙ ap (λ ps. push_rows ps [])
          (own-fresh d [] first ∙ ap (fresh []) (own-first_rows d relevant db.objects m))

  -- What the references of one object add up to.
  abbrev total : (Row → ℕ) → List Row → List Requisite → ℕ
  total size rows [] = 0
  total size rows (p ∷ ps) = size_of fm size rows p.1 + total size rows ps

  sum_of-own :
      (size : Row → ℕ) (rows : List Row) (d : Bytes) (ps : List Requisite)
      → sum_of fm size rows d ps ≡ total size rows (own d ps)
  unfolding sum_of
  sum_of-own size rows d [] = refl
  sum_of-own size rows d (p ∷ ps) = elim (Bool-cases (same p.0 d)) [
    | inl e ↦ rw e (ap (λ n. size_of fm size rows p.1 + n) (sum_of-own size rows d ps))
    | inr e ↦ rw e (omega (arith, sum_of-own size rows d ps))
  ]

  total-push_rows :
      (size : Row → ℕ) (rows : List Row) (ps seen : List Requisite)
      → total size rows (push_rows ps seen) ≡ total size rows ps + total size rows seen
  total-push_rows size rows [] seen = omega arith
  total-push_rows size rows (p ∷ ps) seen = omega (arith, total-push_rows size rows ps (p ∷ seen))

  -- The references of an object to others, each once, with their sizes.
  abbrev pub direct_sum : (Row → ℕ) → Database → Bytes → ℕ
  direct_sum size db d = total size db.objects (fresh [] (rows_of fm d db.objects))

  sum_of-direct :
      (size : Row → ℕ) (db : Database) (d : Bytes) (reqs : List Requisite)
      → own d reqs ≡ direct_rows db d
      → sum_of fm size db.objects d reqs ≡ direct_sum size db d
  sum_of-direct size db d reqs h =
      sum_of-own size db.objects d reqs
      ∙ ap (total size db.objects) h
      ∙ total-push_rows size db.objects (fresh [] (rows_of fm d db.objects)) []
      ∙ omega arith

  -- The sums over closures on the index page: the recursion ends, and for an object on the page the
  -- closure's size is its own size and the sizes of the objects it refers to directly, each once;
  -- the sizes of what those refer to in turn are not in it. The file size is 0 for an object without.
  pub closure_sums :
      (db : Database) (relevant : List Bytes) (row : Row)
      → is_member row.path_digest relevant ≡ true
      → (reqs : List Requisite) × (requisites fm db relevant ≡ some reqs)
        × (closure_nar_size fm db reqs row
            ≡ row.nar_size + direct_sum (λ (r : Row). r.nar_size) db row.path_digest)
        × (closure_file_size fm db reqs row ≡ elim row.file_size [
          | none ↦ 0
          | some n ↦ n + direct_sum file_size_or_zero db row.path_digest
        ])
  unfolding closure_nar_size closure_file_size
  closure_sums db relevant row m =
      let d = row.path_digest in
      let (reqs, r, h) =
        requisites_rule fm (λ seen. own d seen ≡ direct_rows db d) db relevant
          (direct_rows_stay db d) (direct_rows_start db d relevant m) in
      (
        reqs,
        r,
        ap (λ n. row.nar_size + n) (sum_of-direct (λ (r : Row). r.nar_size) db d reqs h),
        ap (λ n. elim row.file_size as (λ o. ℕ) [ none ↦ 0 | some k ↦ k + n ])
            (sum_of-direct file_size_or_zero db d reqs h),
      )
