-- ===== src/UiCache/Conn.antt =====
-- `uiCacheConn` (uicache.go): `CacheInfo`, `NARInfo` and `discover` on the database, over an
-- underlying store. Whether a statement or a transaction fails for other reasons than its data is a
-- parameter that may depend on the database.
use nixcached.Prelude.{
  ℕ, zero, suc, Bool, true, false, not, List, [], ◌∷◌, ◌++◌, Option, none, some, ltb, if◌then◌else◌,
  length, Bytes, same,
}
use nixcached.Nix.{StorePath}
use nixcached.Upload.{NarInfo}
use nixcached.Serve.{Lookup, hit, missing, lookup_failed}
use nixcached.UiCache.{Database}
use nixcached.UiCache.Sql.{Formats, find_row}
use nixcached.UiCache.Object.{
  update_cached_store_object, select_nar_info, update_cached_store_directory,
}

-- The underlying store, with `BatchNARInfo` on it, and what the methods use of the nix module.
pub record Upstream : Type 0 where
  pub cache_info : Option Bytes
  pub nar_info : Bytes → Lookup
  pub batch : List Bytes → List NarInfo
  pub store_directory : StorePath → Bytes
  pub clean_directory : Bytes → Option Bytes
  -- whether the statement that looks a digest up succeeds, and whether a transaction does
  pub can_read : Database → Bytes → Bool
  pub can_write : Database → Bool

-- `exists(select 1 from "store_objects" where "path_digest" = digest)`
unfoldable pub is_known : Database → Bytes → Bool
is_known db digest = elim (find_row digest db.objects) [ none ↦ false | some row ↦ true ]

-- How far the inner loop of `discover` gets: the batch, the digests that the iterator has left, and
-- whether it has come to its end (or to an error).
pub record Filled : Type 0 where
  pub batch : List Bytes
  pub count : ℕ
  pub rest : List Bytes
  pub ended : Bool

-- What `discover` returns, with the database and the batches that it asked for.
pub record Discovered : Type 0 where
  pub count : ℕ
  pub db : Database
  pub requests : List (List Bytes)

-- A batch that was asked for before the others.
abbrev pub add_request : List Bytes → Option Discovered → Option Discovered
add_request batch none = none
add_request batch (some r) = some (record r { requests = batch ∷ r.requests })

abbrev pub batch_limit : ℕ
batch_limit = 100

module _ (fm : Formats) (up : Upstream) where
  -- The end of `CacheInfo`, where the database has no directory.
  unfoldable pub ask_directory : Database → Option Bytes × Database
  ask_directory db = elim up.cache_info [
    | none ↦ (none, db)
    | some dir ↦
        (some dir, (if up.can_write db then update_cached_store_directory fm dir db else db))
  ]

  -- `CacheInfo` on the rows of the table `store`.
  unfoldable pub first_directory : List Bytes → Database → Option Bytes × Database
  first_directory [] db = ask_directory db
  first_directory (dir ∷ more) db = elim (up.clean_directory dir) [
    | none ↦ (none, db)
    | some [] ↦ ask_directory db
    | some (c ∷ clean) ↦ (some (c ∷ clean), db)
  ]

  unfoldable pub cache_info : Database → Option Bytes × Database
  cache_info db = first_directory db.directories db

  -- The transaction that saves one info; a failure is only logged.
  unfoldable pub save_info : NarInfo → Database → Database
  save_info info db = elim (update_cached_store_object fm info db) [
    | none ↦ db
    | some db' ↦ if up.can_write db then db' else db
  ]

  -- `NARInfo` from the statement on.
  unfoldable pub look_up : Bytes → Bytes → Database → Lookup × Database
  unfolding save_info
  look_up dir digest db = elim (select_nar_info fm db digest) [
    | none ↦ (lookup_failed, db)
    | some (some info) ↦ (hit info, db)
    | some none ↦ elim (up.nar_info digest) [
      | missing ↦ (missing, db)
      | lookup_failed ↦ (lookup_failed, db)
      | hit info ↦
          if not (same (up.store_directory info.store_path) dir)
          then (lookup_failed, db)
          else (hit info, save_info info db)
    ]
  ]

  -- `NARInfo` from the answer of `CacheInfo` on.
  unfoldable pub nar_info_in : Bytes → Option Bytes × Database → Lookup × Database
  nar_info_in digest (none, db) = (lookup_failed, db)
  nar_info_in digest (some dir, db) =
      if up.can_read db digest then look_up dir digest db else (lookup_failed, db)

  unfoldable pub nar_info : Bytes → Database → Lookup × Database
  nar_info digest db = nar_info_in digest (cache_info db)

  -- The inner loop of `discover`: a digest that is known or cannot be looked up is counted and not
  -- requested.
  unfoldable pub fill : Database → List Bytes → List Bytes → ℕ → Filled
  unfolding is_known
  fill db [] batch n = record {
    batch = batch;
    count = n;
    rest = [];
    ended = ltb (length batch) batch_limit;
  }
  fill db (d ∷ ds) batch n =
      let skipped = fill db ds batch (suc n) in
      let added = fill db ds (batch ++ d ∷ []) (suc n) in
      let full : Filled = record { batch = batch; count = n; rest = d ∷ ds; ended = false } in
      if not (ltb (length batch) batch_limit)
      then full
      else if not (up.can_read db d)
      then skipped
      else if is_known db d
      then skipped
      else added

  -- The loop over the infos of a batch.
  unfoldable pub save_all : Bytes → List NarInfo → Database → Database
  save_all dir [] db = db
  save_all dir (info ∷ infos) db =
      let skipped = save_all dir infos db in
      let saved : Database = elim (update_cached_store_object fm info db) [
        | none ↦ skipped
        | some db' ↦ save_all dir infos db'
      ] in
      if not (same (up.store_directory info.store_path) dir) then skipped else saved

  -- The transaction of a batch, which is undone as a whole if it fails.
  unfoldable pub save_batch : Bytes → List NarInfo → Database → Database
  save_batch dir infos db = if up.can_write db then save_all dir infos db else db

  -- The outer loop, with `none` where its fuel runs out. The context is asked after each batch.
  unfoldable pub discover_loop :
      (ℕ → Bool) → Bytes → ℕ → List Bytes → ℕ → Database → Option Discovered
  discover_loop cancelled dir zero ds n db = none
  discover_loop cancelled dir (suc fuel) ds n db =
      let f = fill db ds [] n in
      let db' = save_batch dir (up.batch f.batch) db in
      let again = add_request f.batch (discover_loop cancelled dir fuel f.rest f.count db') in
      if cancelled f.count
      then some (record { count = f.count; db = db; requests = [] })
      else if f.ended
      then some (record { count = f.count; db = db'; requests = f.batch ∷ [] })
      else again

  -- `discover` from the answer of `CacheInfo` on.
  unfoldable pub discover_in : (ℕ → Bool) → List Bytes → Option Bytes × Database → Option Discovered
  discover_in cancelled digests (none, db) = some (record { count = 0; db = db; requests = [] })
  discover_in cancelled digests (some dir, db) =
      discover_loop cancelled dir (suc (length digests)) digests 0 db

  -- `discover`, for the digests that the store's iterator gives up to its end or its error. Its calls and
  -- those of the store return.
  unfoldable pub discover : (ℕ → Bool) → List Bytes → Database → Option Discovered
  discover cancelled digests db = discover_in cancelled digests (cache_info db)
