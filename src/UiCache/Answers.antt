-- ===== src/UiCache/Answers.antt =====
-- The answers of `uiCacheConn.NARInfo`: what a miss stores, a hit gives back.
use nixcached.Prelude.{
  ◌≡◌, refl, sym, ap, ◌∙◌, true, false, List, [], ◌∷◌, none, some, is_empty, Bytes, same,
}
use nixcached.Upload.{NarInfo}
use nixcached.Serve.{hit}
use nixcached.UiCache.{Database}
use nixcached.UiCache.Sql.{Formats}
use nixcached.UiCache.Object.{update_cached_store_object, select_nar_info}
use nixcached.UiCache.Printable.{IsPrintable, cached_form}
use nixcached.UiCache.Update.{update-directories, update-select}
use nixcached.UiCache.Conn.{
  Upstream, first_directory, cache_info, save_info, look_up, nar_info_in, nar_info,
}

module _ (fm : Formats) (up : Upstream) (dir : Bytes) (more : List Bytes) where
  first_clean :
      (db : Database) (d : Bytes)
      → up.clean_directory d ≡ some d
      → is_empty d ≡ false
      → first_directory fm up (d ∷ more) db ≡ (some d, db)
  unfolding first_directory
  first_clean db [] c n = cc n
  first_clean db (x ∷ d) c n = rw (c, first_directory) refl

  -- A directory that is clean as it stands is taken from the database.
  pub cached_directory :
      (db : Database)
      → db.directories ≡ dir ∷ more
      → up.clean_directory dir ≡ some dir
      → is_empty dir ≡ false
      → cache_info fm up db ≡ (some dir, db)
  unfolding cache_info
  cached_directory db ds c n = ap (λ l. first_directory fm up l db) ds ∙ first_clean db dir c n

  nar_info-look_up :
      (db : Database) (digest : Bytes)
      → cache_info fm up db ≡ (some dir, db)
      → up.can_read db digest ≡ true
      → nar_info fm up digest db ≡ look_up fm up dir digest db
  unfolding nar_info nar_info_in
  nar_info-look_up db digest c r = ap (nar_info_in fm up digest) c ∙ rw r refl

  -- A lookup that misses the cache asks the store; the info that it returns is saved, and the same
  -- lookup gives its cached form afterwards, without the store and without a change. The info must
  -- lie in the store directory, be printable and have the digest that was asked for, and the
  -- statements must succeed.
  pub nar_info_twice :
      (db db' : Database) (digest : Bytes) (info : NarInfo) (i : IsPrintable fm dir info)
      → db.directories ≡ dir ∷ more
      → up.clean_directory dir ≡ some dir
      → is_empty dir ≡ false
      → fm.nix.digest i.object ≡ digest
      → select_nar_info fm db digest ≡ some none
      → up.nar_info digest ≡ hit info
      → same (up.store_directory info.store_path) dir ≡ true
      → update_cached_store_object fm info db ≡ some db'
      → up.can_read db digest ≡ true
      → up.can_read db' digest ≡ true
      → up.can_write db ≡ true
      → (nar_info fm up digest db ≡ (hit info, db'))
        × (nar_info fm up digest db' ≡ (hit (cached_form fm dir info), db'))
  unfolding look_up save_info
  nar_info_twice db db' digest info i ds clean filled d s u o h r r' w =
      let c = cached_directory db ds clean filled in
      let c' = cached_directory db' (update-directories fm info db db' h ∙ ds) clean filled in
      let found : select_nar_info fm db' digest ≡ some (some (cached_form fm dir info)) =
        ap (select_nar_info fm db') (sym d) ∙ (update-select fm dir more info i db db' ds h).0 in
      (
        nar_info-look_up db digest c r ∙ rw (s, look_up, u, o, save_info, h, w) refl,
        nar_info-look_up db' digest c' r' ∙ rw (found, look_up) refl,
      )
