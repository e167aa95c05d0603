-- ===== src/UiCache/Batches.antt =====
-- Saving a batch of `uiCacheConn.discover`: what is known stays known, and what can be saved is.
use nixcached.Prelude.{
  ◌≡◌, refl, sym, ap, ◌∙◌, Bool, true, false, not, arith, List, [], ◌∷◌, Option, none, some,
  Option-cases, some_inj, Bool-cases, if_rule, inl, inr, ◌⊎◌, Bytes, same, same_sound, same_refl,
}
use nixcached.Upload.{NarInfo}
use nixcached.UiCache.{Row, Database}
use nixcached.UiCache.Sql.{Formats, find_row, put_row, is_valid_row}
use nixcached.UiCache.Object.{row_of, update_cached_store_object}
use nixcached.UiCache.Update.{find_row-put_row, find_row-put_row_other, update_rule}
use nixcached.UiCache.Conn.{Upstream, is_known, save_all, save_batch}
use nixcached.UiCache.Fill.{Any}

found_known :
    (db : Database) (d : Bytes) (row : Row)
    → find_row d db.objects ≡ some row
    → is_known db d ≡ true
unfolding is_known
found_known db d row e = rw (is_known, e) refl

known_saved :
    (db : Database) (d : Bytes) (row : Row)
    → row.path_digest ≡ d
    → is_known (record db { objects = put_row row db.objects }) d ≡ true
known_saved db d row e =
    found_known (record db { objects = put_row row db.objects }) d row
      (ap (λ k. find_row k (put_row row db.objects)) (sym e) ∙ find_row-put_row row db.objects)

found_same :
    (db db' : Database) (d : Bytes)
    → find_row d db'.objects ≡ find_row d db.objects
    → is_known db d ≡ true
    → is_known db' d ≡ true
unfolding is_known
found_same db db' d e k =
    ap (λ (o : Option Row). elim o as (λ x. Bool) [ none ↦ false | some row ↦ true ]) e ∙ k

known-put_row :
    (db : Database) (d : Bytes) (row : Row)
    → is_known db d ≡ true
    → is_known (record db { objects = put_row row db.objects }) d ≡ true
unfolding is_known
known-put_row db d row k = elim (Bool-cases (same row.path_digest d)) [
  | inl e ↦ known_saved db d row (same_sound row.path_digest d e)
  | inr e ↦
      found_same db (record db { objects = put_row row db.objects }) d
        (find_row-put_row_other row db.objects d
          (λ p. cc (e, ap (same row.path_digest) p, same_refl row.path_digest)))
        k
]

update_saved :
    (fm : Formats) (info : NarInfo) (db : Database) (row : Row)
    → row_of fm info ≡ some row
    → is_valid_row row ≡ true
    → update_cached_store_object fm info db ≡ some (record db { objects = put_row row db.objects })
unfolding update_cached_store_object
update_saved fm info db row e v = rw (e, update_cached_store_object, v) refl

module _ (fm : Formats) (up : Upstream) (dir : Bytes) where
  known-update :
      (info : NarInfo) (db db' : Database) (d : Bytes)
      → update_cached_store_object fm info db ≡ some db'
      → is_known db d ≡ true
      → is_known db' d ≡ true
  known-update info db db' d h k =
      let (row, e, v, p) = update_rule fm info db db' h in rw p (known-put_row db d row k)

  -- The object that an info is about can be saved under the digest.
  pub record CanSave (d : Bytes) (info : NarInfo) : Type 0 where
    pub inside : same (up.store_directory info.store_path) dir ≡ true
    pub row : Row
    pub printed : row_of fm info ≡ some row
    pub valid : is_valid_row row ≡ true
    pub digest : row.path_digest ≡ d

  -- To show something of the loop over a batch: an info is skipped, or its object is updated.
  save_all_rule :
      (P : Database → Type 0) (info : NarInfo) (infos : List NarInfo) (db : Database)
      → ((same (up.store_directory info.store_path) dir ≡ false)
            ⊎ (update_cached_store_object fm info db ≡ none)
          → P (save_all fm up dir infos db))
      → ((db' : Database)
          → update_cached_store_object fm info db ≡ some db'
          → P (save_all fm up dir infos db'))
      → P (save_all fm up dir (info ∷ infos) db)
  unfolding save_all
  save_all_rule P info infos db skipped saved =
      if_rule P (not (same (up.store_directory info.store_path) dir)) _ _
        (λ e. skipped (inl (ground arith)))
        (λ _. elim (Option-cases (update_cached_store_object fm info db)) [
          | inl e ↦ rw (e, save_all) (skipped (inr e))
          | inr (db', e) ↦ rw (e, save_all) (saved db' e)
        ])

  known-save_all :
      (infos : List NarInfo) (db : Database) (d : Bytes)
      → is_known db d ≡ true
      → is_known (save_all fm up dir infos db) d ≡ true
  unfolding save_all
  known-save_all [] db d k = k
  known-save_all (info ∷ infos) db d k =
      save_all_rule (λ r. is_known r d ≡ true) info infos db (λ _. known-save_all infos db d k)
        (λ db' e. known-save_all infos db' d (known-update info db db' d e k))

  save_all_saved :
      (infos : List NarInfo) (db : Database) (d : Bytes)
      → Any (CanSave d) infos
      → is_known (save_all fm up dir infos db) d ≡ true
  unfolding save_all
  save_all_saved [] db d h = elim h [ ]
  save_all_saved (info ∷ infos) db d (inl c) =
      save_all_rule (λ r. is_known r d ≡ true) info infos db
        (λ s. absurd (elim s [
          | inl e ↦ cc (e, c.inside)
          | inr e ↦ cc (e, update_saved fm info db c.row c.printed c.valid)
        ]))
        (λ db' e. known-save_all infos db' d (
          rw (some_inj (sym (update_saved fm info db c.row c.printed c.valid) ∙ e)) at
            (known_saved db d c.row c.digest)))
  save_all_saved (info ∷ infos) db d (inr h) =
      save_all_rule (λ r. is_known r d ≡ true) info infos db (λ _. save_all_saved infos db d h)
        (λ db' e. save_all_saved infos db' d h)

  -- What a batch is asked for is known afterwards, if the store answers it and the transaction
  -- succeeds.
  pub known-save_batch :
      (infos : List NarInfo) (db : Database) (d : Bytes)
      → is_known db d ≡ true
      → is_known (save_batch fm up dir infos db) d ≡ true
  unfolding save_batch
  known-save_batch infos db d k =
      if_rule (λ r. is_known r d ≡ true) (up.can_write db) _ _ (λ _. known-save_all infos db d k)
        (λ _. k)

  pub save_batch_saved :
      (infos : List NarInfo) (db : Database) (d : Bytes)
      → up.can_write db ≡ true
      → Any (CanSave d) infos
      → is_known (save_batch fm up dir infos db) d ≡ true
  unfolding save_batch
  save_batch_saved infos db d w h = rw w (save_all_saved infos db d h)
