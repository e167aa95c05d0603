-- ===== src/UiCache/Update.antt =====
-- What `updateCachedStoreObject` changes in the database.
use nixcached.Prelude.{
  ◌≡◌, ◌≢◌, refl, sym, ◌∙◌, true, false, arith, List, [], ◌∷◌, some, some_inj, Option-cases,
  Bool-cases, inl, inr, Bytes, same, same_refl, same_sound,
}
use nixcached.Upload.{NarInfo}
use nixcached.UiCache.{Row, Database}
use nixcached.UiCache.Sql.{Formats, is_valid_row, put_row, find_row}
use nixcached.UiCache.Object.{
  row_of, update_cached_store_object, extract_nar_info_from_row, select_nar_info,
}
use nixcached.UiCache.Printable.{IsPrintable, cached_form}
use nixcached.UiCache.RoundTrip.{printed_row, row_of-eq, extract-printed_row}

not_same : (s t : Bytes) → s ≢ t → same s t ≡ false
not_same s t n = elim (Bool-cases (same s t)) [ inl e ↦ absurd (n (same_sound s t e)) | inr e ↦ e ]

pub find_row-put_row :
    (row : Row) (rows : List Row) → find_row row.path_digest (put_row row rows) ≡ some row
unfolding find_row put_row
find_row-put_row row [] = rw (same_refl row.path_digest) refl
find_row-put_row row (r ∷ rows) = elim (Bool-cases (same r.path_digest row.path_digest)) [
  | inl e ↦ rw (e, same_refl row.path_digest) refl
  | inr e ↦ rw (e, find_row, e) (find_row-put_row row rows)
]

pub find_row-put_row_other :
    (row : Row) (rows : List Row) (d : Bytes)
    → row.path_digest ≢ d
    → find_row d (put_row row rows) ≡ find_row d rows
unfolding find_row put_row
find_row-put_row_other row [] d n = ground (arith, same_sound row.path_digest d)
find_row-put_row_other row (r ∷ rows) d n = elim (Bool-cases (same r.path_digest row.path_digest)) [
  | inl e ↦
      rw
        (
          e,
          not_same row.path_digest d n,
          not_same r.path_digest d (λ f. n (sym (same_sound r.path_digest row.path_digest e) ∙ f)),
        )
        refl
  | inr e ↦ elim (Bool-cases (same r.path_digest d)) [
    | inl f ↦ rw (e, find_row, f) refl
    | inr f ↦ rw (e, find_row, f) (find_row-put_row_other row rows d n)
  ]
]

pub update_rule :
    (fm : Formats) (info : NarInfo) (db db' : Database)
    → update_cached_store_object fm info db ≡ some db'
    → (row : Row) × (row_of fm info ≡ some row)
      × (is_valid_row row ≡ true)
      × (db' ≡ record db { objects = put_row row db.objects })
unfolding update_cached_store_object
update_rule fm info db db' h = elim (Option-cases (row_of fm info)) [
  | inl e ↦ cc (rw (e, update_cached_store_object) at h)
  | inr (row, e) ↦ elim (Bool-cases (is_valid_row row)) [
    | inr v ↦ cc (rw (e, update_cached_store_object, v) at h)
    | inl v ↦ (row, e, v, sym (some_inj (rw (e, update_cached_store_object, v) at h)))
  ]
]

select_found :
    (fm : Formats) (db : Database) (d : Bytes) (row : Row) (info : NarInfo)
    → find_row d db.objects ≡ some row
    → extract_nar_info_from_row fm db row ≡ some info
    → select_nar_info fm db d ≡ some (some info)
unfolding select_nar_info
select_found fm db d row info f x = rw (f, select_nar_info, x) refl

-- Reading a row does not depend on the other rows.
extract_unchanged :
    (fm : Formats) (db : Database) (rows : List Row) (row : Row)
    → extract_nar_info_from_row fm (record db { objects = rows }) row
      ≡ extract_nar_info_from_row fm db row
unfolding extract_nar_info_from_row
extract_unchanged fm db rows row = refl

select_unchanged :
    (fm : Formats) (db : Database) (rows : List Row) (d : Bytes)
    → find_row d rows ≡ find_row d db.objects
    → select_nar_info fm (record db { objects = rows }) d ≡ select_nar_info fm db d
unfolding select_nar_info
select_unchanged fm db rows d e = elim (Option-cases (find_row d db.objects)) [
  | inl f ↦ rw (e, f, select_nar_info) refl
  | inr (row, f) ↦ rw (e, f, select_nar_info) (rw (extract_unchanged fm db rows row) refl)
]

pub update-directories :
    (fm : Formats) (info : NarInfo) (db db' : Database)
    → update_cached_store_object fm info db ≡ some db'
    → db'.directories ≡ db.directories
update-directories fm info db db' h = let (row, e, v, d) = update_rule fm info db db' h in rw d refl

-- After an info has been written, where it is printable and the store directory is known, a lookup
-- by its digest gives its cached form: the same info with its references and signatures sorted, and
-- -1 for a file size that is not positive. A lookup by any other digest gives what it gave before.
pub update-select :
    (fm : Formats) (dir : Bytes) (more : List Bytes) (info : NarInfo) (i : IsPrintable fm dir info)
    (db db' : Database)
    → db.directories ≡ dir ∷ more
    → update_cached_store_object fm info db ≡ some db'
    → (select_nar_info fm db' (fm.nix.digest i.object) ≡ some (some (cached_form fm dir info)))
      × ((d : Bytes)
          → fm.nix.digest i.object ≢ d
          → select_nar_info fm db' d ≡ select_nar_info fm db d)
update-select fm dir more info i db db' e h =
    let (row, r, v, d) = update_rule fm info db db' h in
    let p : row ≡ printed_row fm dir info i = some_inj (sym r ∙ row_of-eq fm dir info i) in
    rw (d, p)
      (
        select_found fm (record db { objects = put_row (printed_row fm dir info i) db.objects })
            (fm.nix.digest i.object) (printed_row fm dir info i) (cached_form fm dir info)
            (find_row-put_row (printed_row fm dir info i) db.objects)
            (extract-printed_row fm dir info i
              (record db { objects = put_row (printed_row fm dir info i) db.objects }) more e),
        λ k n.
            select_unchanged fm db (put_row (printed_row fm dir info i) db.objects) k
              (find_row-put_row_other (printed_row fm dir info i) db.objects k n),
      )
