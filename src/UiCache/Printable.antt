-- ===== src/UiCache/Printable.antt =====
-- The infos that the nix module prints and parses without loss, and their form in the database.
use nixcached.Prelude.{
  ◌≡◌, false, ◌⊎◌, [], ◌++◌, none, some, All, is_empty, Bytes, codes, contains_byte,
}
use nixcached.Nix.{StorePath}
use nixcached.Upload.{NarInfo, Hash}
use nixcached.UiCache.Sql.{Formats, base, sort_texts}
use nixcached.UiCache.Object.{known_size, size_or_unknown, join}

module _ (fm : Formats) (dir : Bytes) where
  -- A path of the store directory, which the nix module parses.
  pub record IsPath (p : StorePath) : Type 0 where
    pub entry : Bytes
    pub whole : p ≡ join dir entry
    pub filled : is_empty entry ≡ false
    pub plain : contains_byte 47 entry ≡ false
    pub parsed : fm.parse_store_path p ≡ some p

  -- A hash that survives being printed whole, and as its type and its bytes.
  pub record IsHash (h : Hash) : Type 0 where
    pub printed : fm.parse_hash (fm.hash_text h) ≡ some h
    pub in_columns :
        fm.parse_hash (fm.hash_type h ++ (codes ":" ++ fm.hex (fm.hash_bytes h))) ≡ some h

  pub record IsSignature (s : Bytes) : Type 0 where
    pub data_ : Bytes
    pub whole : s ≡ fm.signature_name s ++ (codes ":" ++ data_)
    pub parsed : fm.parse_signature s ≡ some s

  -- An info whose parts the nix module prints and parses without loss.
  pub record IsPrintable (info : NarInfo) : Type 0 where
    pub path : IsPath info.store_path
    pub object : StorePath
    pub is_object : fm.nix.object fm.nix.default_dir path.entry ≡ some object
    pub named : path.entry ≡ fm.nix.digest object ++ (codes "-" ++ fm.nix.name object)
    pub compression :
        fm.known_compression (fm.compression_text info.compression) ≡ some info.compression
    pub file_hash :
        IsHash info.file_hash ⊎ ((info.file_hash ≡ []) × (fm.parse_hash (fm.hash_text []) ≡ none))
    pub nar_hash : IsHash info.nar_hash
    pub references : All IsPath info.references
    pub deriver : IsPath info.deriver ⊎ (info.deriver ≡ [])
    pub signatures : All IsSignature info.sig
    pub ca : (fm.parse_ca info.ca ≡ some info.ca) ⊎ (info.ca ≡ [])

  -- The info as the database gives it: references in the order of their last elements, signatures
  -- in the order of their names, and -1 for a size that is not positive.
  abbrev pub cached_form : NarInfo → NarInfo
  cached_form info = record info {
    file_size = size_or_unknown (known_size info.file_size);
    references = sort_texts base info.references;
    sig = sort_texts fm.signature_name info.sig;
  }
