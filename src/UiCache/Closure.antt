-- ===== src/UiCache/Closure.antt =====
-- The sums over closures on the index page: the recursive part of uicache/index.sql, and what
-- `cachedList` reads of them. A sum that SQLite cannot hold in 64 bits is an error there and not here.
use nixcached.Prelude.{
  ℕ, suc, ◌+◌, Bool, false, ◌&&◌, ◌||◌, not, List, [], ◌∷◌, ◌++◌, Option, none, some, if◌then◌else◌,
  length, keep, map, Bytes, same,
}
use nixcached.UiCache.{Row, Database}
use nixcached.UiCache.Sql.{Formats, is_member, store_path_digest}

-- A row of `requisites`: a digest and a reference.
abbrev pub Requisite : Type 0
Requisite = Bytes × Bytes

unfoldable pub is_in : Requisite → List Requisite → Bool
is_in p [] = false
is_in p (q ∷ qs) = (same p.0 q.0 && same p.1 q.1) || is_in p qs

-- `union`: the rows that are new, each once.
unfoldable pub fresh : List Requisite → List Requisite → List Requisite
unfolding is_in
fresh seen [] = []
fresh seen (p ∷ ps) =
    let old = fresh seen ps in
    let new = p ∷ fresh (p ∷ seen) ps in if is_in p seen then old else new

abbrev pub push_rows : List Requisite → List Requisite → List Requisite
push_rows [] seen = seen
push_rows (p ∷ ps) seen = push_rows ps (p ∷ seen)

-- The sum over the objects with a digest, of which there is one at most.
unfoldable pub sum_at : (Row → ℕ) → Bytes → List Row → ℕ
sum_at size digest [] = 0
sum_at size digest (row ∷ rows) =
    (if same row.path_digest digest then size row else 0) + sum_at size digest rows

abbrev pub file_size_or_zero : Row → ℕ
file_size_or_zero row = elim row.file_size [ none ↦ 0 | some n ↦ n ]

module _ (fm : Formats) where
  -- `"path_digest" <> store_path_digest("reference")`, which is not true of null.
  unfoldable pub is_other : Bytes → Bytes → Bool
  is_other digest reference = elim (store_path_digest fm (some reference)) [
    | none ↦ false
    | some d ↦ not (same digest d)
  ]

  -- The rows of `store_object_references` for one object, but for references to itself.
  unfoldable pub references_of : Row → List Requisite
  references_of row =
      map (λ r. (row.path_digest, r)) (keep (is_other row.path_digest) row.references)

  -- The first select: the references of the objects on the page.
  unfoldable pub first_rows : List Bytes → List Row → List Requisite
  first_rows relevant [] = []
  first_rows relevant (row ∷ rows) =
      (if is_member row.path_digest relevant then references_of row else [])
      ++ first_rows relevant rows

  -- The references of the object with a digest.
  unfoldable pub rows_of : Bytes → List Row → List Requisite
  rows_of digest [] = []
  rows_of digest (row ∷ rows) =
      (if same row.path_digest digest then references_of row else []) ++ rows_of digest rows

  -- The second select, for one row of `requisites`.
  unfoldable pub next_rows : List Row → Requisite → List Requisite
  next_rows rows p = elim (store_path_digest fm (some p.1)) [ none ↦ [] | some d ↦ rows_of d rows ]

  -- The recursion: rows that wait are taken one by one, and what they lead to is added.
  unfoldable pub recur : ℕ → List Row → List Requisite → List Requisite → Option (List Requisite)
  recur ℕ.zero rows seen queue = none
  recur (suc fuel) rows seen [] = some seen
  recur (suc fuel) rows seen (p ∷ queue) =
      let new = fresh seen (next_rows rows p) in recur fuel rows (push_rows new seen) (queue ++ new)

  abbrev pub all_rows : List Row → List Requisite
  all_rows [] = []
  all_rows (row ∷ rows) = references_of row ++ all_rows rows

  unfoldable pub requisites : Database → List Bytes → Option (List Requisite)
  requisites db relevant =
      let new = fresh [] (first_rows relevant db.objects) in
      recur (suc (length (all_rows db.objects))) db.objects (push_rows new []) new

  -- What a reference adds: the join with `store_objects`.
  unfoldable pub size_of : (Row → ℕ) → List Row → Bytes → ℕ
  size_of size rows reference = elim (store_path_digest fm (some reference)) [
    | none ↦ 0
    | some d ↦ sum_at size d rows
  ]

  -- `select sum(…) … where "requisites"."path_digest" = digest`, which passes over nulls.
  unfoldable pub sum_of : (Row → ℕ) → List Row → Bytes → List Requisite → ℕ
  sum_of size rows digest [] = 0
  sum_of size rows digest (p ∷ ps) =
      (if same p.0 digest then size_of size rows p.1 else 0) + sum_of size rows digest ps

  unfoldable pub closure_nar_size : Database → List Requisite → Row → ℕ
  closure_nar_size db reqs row =
      row.nar_size + sum_of (λ (r : Row). r.nar_size) db.objects row.path_digest reqs

  -- A null, for an object without a file size, is read as zero.
  unfoldable pub closure_file_size : Database → List Requisite → Row → ℕ
  closure_file_size db reqs row = elim row.file_size [
    | none ↦ 0
    | some n ↦ n + sum_of file_size_or_zero db.objects row.path_digest reqs
  ]
