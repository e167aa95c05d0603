-- ===== src/UiCache/Object.antt =====
-- Writing and reading one object: `updateCachedStoreObject` with uicache/upsert_object.sql, and
-- uicache/narinfo.sql with `extractNARInfoFromRow` (uicache.go). A statement that fails undoes the
-- others, since they stand between a savepoint and its release.
use nixcached.Prelude.{
  ℕ, ℤ, pos, negsuc, [], ◌∷◌, ◌++◌, Option, none, some, ◌>>=◌, if◌then◌else◌, is_empty, Bytes,
  codes,
}
use nixcached.Upload.{NarInfo}
use nixcached.UiCache.{Row, Database}
use nixcached.UiCache.Sql.{
  Formats, is_valid_row, put_row, find_row, traverse, sort_texts, path_base, store_path_digest,
  store_path_name, hash_type_of, hash_bytes_of, signature_name_of, signature_data_of,
}

-- `nullif(s, '')`
unfoldable pub null_if_empty : Bytes → Option Bytes
null_if_empty [] = none
null_if_empty (c ∷ s) = some (c ∷ s)

-- `iif(:file_size > 0, :file_size, null)` and `coalesce("file_size", -1)`
unfoldable pub known_size : ℤ → Option ℕ
known_size (pos ℕ.zero) = none
known_size (pos (ℕ.suc n)) = some (ℕ.suc n)
known_size (negsuc n) = none

unfoldable pub size_or_unknown : Option ℕ → ℤ
size_or_unknown none = negsuc 0
size_or_unknown (some n) = pos n

-- `stmt.GetText` of a column
unfoldable pub get_text : Option Bytes → Bytes
get_text none = []
get_text (some s) = s

-- A text that may be missing.
abbrev pub unless_empty : (Bytes → Option Bytes) → Bytes → Option Bytes
unless_empty parse s = if is_empty s then some [] else parse s

-- A path in the store directory.
abbrev pub join : Bytes → Bytes → Bytes
join dir entry = dir ++ (codes "/" ++ entry)

module _ (fm : Formats) where
  abbrev pub signature_row : Bytes → Option (Bytes × Bytes)
  signature_row sig = do
    name ← signature_name_of fm (some sig)
    data_ ← signature_data_of fm (some sig)
    some (name, data_)

  -- The row that the statements make of an info. A null in a column that does not allow one is an
  -- error.
  unfoldable pub row_of : NarInfo → Option Row
  unfolding null_if_empty known_size
  row_of info = do
    digest ← store_path_digest fm (some info.store_path)
    name ← store_path_name fm (some info.store_path)
    nar_type ← hash_type_of fm (some (fm.hash_text info.nar_hash))
    nar_bytes ← hash_bytes_of fm (some (fm.hash_text info.nar_hash))
    references ← traverse (λ p. path_base fm (some p)) info.references
    signatures ← traverse signature_row info.sig
    some (record {
      path_digest = digest;
      path_name = name;
      url = info.url;
      compression = fm.compression_text info.compression;
      file_hash_type = hash_type_of fm (some (fm.hash_text info.file_hash));
      file_hash_bytes = hash_bytes_of fm (some (fm.hash_text info.file_hash));
      file_size = known_size info.file_size;
      nar_hash_type = nar_type;
      nar_hash_bytes = nar_bytes;
      nar_size = info.nar_size;
      deriver = path_base fm (null_if_empty info.deriver);
      ca = null_if_empty info.ca;
      references = references;
      signatures = signatures;
    })

  unfoldable pub update_cached_store_object : NarInfo → Database → Option Database
  unfolding row_of put_row
  update_cached_store_object info db = elim (row_of info) [
    | none ↦ none
    | some row ↦
        if is_valid_row row then some (record db { objects = put_row row db.objects }) else none
  ]

  -- The column of a hash in the view; without a type or bytes it is null.
  unfoldable pub hash_column : Option Bytes → Option Bytes → Option Bytes
  hash_column type bytes = do t ← type; b ← bytes; some (t ++ (codes ":" ++ fm.hex b))

  -- `extractNARInfoFromRow` on the columns of the view. Without a store directory the store path is
  -- null, whose text is empty and no store path.
  unfoldable pub extract_nar_info_from_row : Database → Row → Option NarInfo
  extract_nar_info_from_row db row = elim db.directories [
    | [] ↦ none
    | dir ∷ more ↦ do
      path ← fm.parse_store_path (join dir (row.path_digest ++ (codes "-" ++ row.path_name)))
      compression ← fm.known_compression row.compression
      file_hash ←
          unless_empty fm.parse_hash (get_text (hash_column row.file_hash_type row.file_hash_bytes))
      nar_hash ←
          unless_empty fm.parse_hash
            (get_text (hash_column (some row.nar_hash_type) (some row.nar_hash_bytes)))
      references ←
          traverse (λ r. fm.parse_store_path (join dir r)) (sort_texts (λ r. r) row.references)
      deriver ← unless_empty fm.parse_store_path (get_text (row.deriver >>= λ d. some (join dir d)))
      sig ←
          traverse (λ (s : Bytes × Bytes). fm.parse_signature (s.0 ++ (codes ":" ++ s.1)))
            (sort_texts (λ (s : Bytes × Bytes). s.0) row.signatures)
      ca ← unless_empty fm.parse_ca (get_text row.ca)
      some (record {
        store_path = path;
        url = row.url;
        compression = compression;
        file_hash = file_hash;
        file_size = size_or_unknown row.file_size;
        nar_hash = nar_hash;
        nar_size = row.nar_size;
        references = references;
        deriver = deriver;
        sig = sig;
        ca = ca;
      })
  ]

  -- uicache/narinfo.sql: no row, a row that cannot be read, or an info.
  unfoldable pub select_nar_info : Database → Bytes → Option (Option NarInfo)
  unfolding find_row
  select_nar_info db digest = elim (find_row digest db.objects) [
    | none ↦ some none
    | some row ↦ elim (extract_nar_info_from_row db row) [
      | none ↦ none
      | some info ↦ some (some info)
    ]
  ]

  -- `updateCachedStoreDirectory`
  unfoldable pub update_cached_store_directory : Bytes → Database → Database
  update_cached_store_directory dir db = record db { directories = dir ∷ [] }
