-- ===== src/Intake/Setup.antt =====
-- What the upload command does before it takes paths in (upload.go): the checks of its flags, its
-- input, the bucket and the bucket's cache info. The flag parser, the environment and the file
-- system are arguments.
use nixcached.Prelude.{
  ℕ, Bool, true, false, ◌&&◌, List, [], ◌∷◌, ◌++◌, Option, none, some, if◌then◌else◌, is_empty,
  Bytes, codes,
}
use nixcached.Compression.{Compression, bzip2, xz}
use nixcached.Upload.{Event, UploadOptions, is_supported}
use nixcached.Upload.CacheInfo.{CacheInfoError, CacheWorld, ensure_cache_info}
use nixcached.UiCache.Sql.{sort_texts}

-- The words of a list with commas, and "or" before the last; the first word has none before it.
unfoldable pub join_words : Bool → List Bytes → Bytes
join_words is_first [] = []
join_words true (w ∷ ws) = w ++ join_words false ws
join_words false (w ∷ []) = codes ", or " ++ w
join_words false (w ∷ v ∷ ws) = codes ", " ++ (w ++ join_words false (v ∷ ws))

-- `supportedCompressionTypes`, from the keys of `compressionWrappers` in the order of the visit.
unfoldable pub supported_compression_types : List Bytes → Bytes
supported_compression_types keys = join_words true (sort_texts (λ (s : Bytes). s) keys)

-- `findXZExecutable`, from the variable XZ and the search on the path.
unfoldable pub find_xz_executable : Bytes → Option Bytes → Bytes
find_xz_executable variable path =
    let searched : Bytes = elim path [ none ↦ [] | some p ↦ p ] in
    if is_empty variable then searched else variable

abbrev pub default_compression : Bytes → Compression
default_compression xz_executable = if is_empty xz_executable then bzip2 else xz

pub record Flags : Type 0 where
  pub input : Bytes
  pub keep_alive : Bool
  pub allow_finish : Bool
  pub compression : Compression
  pub force : Bool
  pub write_nar_listing : Bool
  pub jobs : ℕ

pub data Input : Type 0 where
  stdin : Input
  -- a file that is opened for reading, or for reading and writing
  read_file : Bytes → Input
  read_write_file : Bytes → Input

-- What `runUpload` is called with.
pub record UploadCall : Type 0 where
  pub input : Input
  pub stop_on_inline_eof : Bool
  pub store_dir : Bytes
  pub options : UploadOptions
  pub concurrency : ℕ

pub data CommandError (E : Type 0) : Type 0 where
  unsupported : Compression → CommandError E
  no_store_dir : E → CommandError E
  no_input : E → CommandError E

pub data Started (E : Type 0) : Type 0 where
  rejected : CommandError E → Started E
  calls : UploadCall → Started E

pub record Files (E : Type 0) : Type 0 where
  -- the store directory of the environment
  pub store_dir : Bytes
  pub store_dir_error : Option E
  -- whether `os.Stat` finds a named pipe
  pub is_named_pipe : Bytes → Bool
  pub open_file : Input → Option E

module _ {E : Type 0} (f : Files E) where
  unfoldable pub input_of : Flags → Input
  input_of flags =
      if is_empty flags.input
      then stdin
      else if flags.keep_alive && f.is_named_pipe flags.input
      then read_write_file flags.input
      else read_file flags.input

  abbrev pub open_error : Input → Option E
  open_error stdin = none
  open_error input = f.open_file input

  abbrev pub call_of : Flags → UploadCall
  call_of flags = record {
    input = input_of flags;
    stop_on_inline_eof = flags.allow_finish;
    store_dir = f.store_dir;
    options = record {
      overwrite = flags.force;
      create_listings = flags.write_nar_listing;
      compression = flags.compression;
    };
    concurrency = flags.jobs;
  }

  -- `RunE` of `newUploadCommand`, up to the call of `runUpload`.
  unfoldable pub start_command : Flags → Started E
  start_command flags =
      let started : Started E = elim f.store_dir_error [
        | some e ↦ rejected (no_store_dir e)
        | none ↦ elim (open_error (input_of flags)) [
          | some e ↦ rejected (no_input e)
          | none ↦ calls (call_of flags)
        ]
      ] in
      if is_supported flags.compression then started else rejected (unsupported flags.compression)

pub data PrepareError (E : Type 0) : Type 0 where
  no_opener : E → PrepareError E
  no_bucket : E → PrepareError E
  no_cache_info : CacheInfoError E → PrepareError E

-- How `runUpload` comes to its loop, with what it has written to the bucket.
pub data Prepared (E : Type 0) : Type 0 where
  refused : PrepareError E → List Event → Prepared E
  ready : List Event → Prepared E

pub record Opener (E : Type 0) : Type 0 where
  pub new_bucket_url_opener : Option E
  pub open_bucket : Bytes → Option E

unfoldable pub prepare : {E : Type 0} → Opener E → CacheWorld E → Bytes → Bytes → Prepared E
prepare o w url dir = elim o.new_bucket_url_opener [
  | some e ↦ refused (no_opener e) []
  | none ↦ elim (o.open_bucket url) [
    | some e ↦ refused (no_bucket e) []
    | none ↦
        let r = ensure_cache_info w dir [] in
        elim r.0 [ some e ↦ refused (no_cache_info e) r.1 | none ↦ ready r.1 ]
  ]
]
