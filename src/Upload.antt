-- ===== src/Upload.antt =====
-- One store object on its way into the bucket (upload.go): `checkUploadOverwrite`, `dump` and
-- `uploadStorePath`. What the program does to the bucket is the list of its writes, each with the
-- error that came back. The bucket, the nix module, the archiver, the compressors and the hashes
-- are not part of the repository and are parameters.
pub mod Bucket
pub mod Trace
pub mod Publish
pub mod Success
pub mod Overwrite
pub mod Concurrent
pub mod Together
pub mod Arrive
pub mod Stream
pub mod Writers
pub mod Chunks
pub mod Pipe
pub mod Packs
pub mod Refines
pub mod Kept
pub mod CacheInfo
use nixcached.Prelude.{
  ℕ, ℤ, pos, ◌≡◌, Bool, true, false, ◌&&◌, ◌||◌, not, List, [], ◌∷◌, ◌++◌, Option, none, some, leb,
  ◌==◌, if◌then◌else◌, length, Bytes, codes, same,
}
use nixcached.Nix.{StorePath}
use nixcached.Compression.{
  Compression, no_compression, gzip, bzip2, xz, compression_extension, compression_mime_type,
}

-- `nix.Hash`; the zero value is the empty text.
abbrev pub Hash : Type 0
Hash = Bytes

-- `nix.NARInfo`
pub record NarInfo : Type 0 where
  pub store_path : StorePath
  pub url : Bytes
  pub compression : Compression
  pub file_hash : Hash
  -- the cache gives -1 for a size that is not known
  pub file_size : ℤ
  pub nar_hash : Hash
  pub nar_size : ℕ
  pub references : List StorePath
  pub deriver : StorePath
  pub sig : List Bytes
  pub ca : Bytes

-- A write to the bucket (`WriteAll` or `Upload`): key, content, content type, and whether it
-- returned no error.
pub data Event : Type 0 where
  put : Bytes → Bytes → Bytes → Bool → Event

-- `ReadAll`, with the error code NotFound told apart.
pub data ReadResult (E : Type 0) : Type 0 where
  found : Bytes → ReadResult E
  not_found : ReadResult E
  read_failed : E → ReadResult E

-- The world of `uploadStorePath`, for errors of type `E` and listings of type `L`.
pub record World (E L : Type 0) : Type 0 where
  -- the bucket, by what was written to it so far
  pub read_all : List Event → Bytes → ReadResult E
  pub write_all : List Event → Bytes → Bytes → Bytes → Option E
  -- the nix module
  pub digest : StorePath → Bytes
  pub nar_info_extension : Bytes
  pub listing_extension : Bytes
  pub nar_info_mime_type : Bytes
  pub nar_mime_type : Bytes
  pub listing_mime_type : Bytes
  pub marshal_text : NarInfo → Option Bytes
  pub unmarshal_text : Bytes → Option NarInfo
  pub add_signatures : List Bytes → List Bytes → List Bytes
  pub raw_base32 : Hash → Bytes
  pub sha256 : Bytes → Hash
  -- temporary files, archives, compressors
  pub create_temp : Option E
  pub seek_start : Option E
  pub dump_path : StorePath → Option Bytes
  pub compress : Compression → Bytes → Option Bytes
  pub nar_list : Bytes → Option L
  pub marshal_listing : L → Option Bytes

pub record UploadOptions : Type 0 where
  pub overwrite : Bool
  pub create_listings : Bool
  pub compression : Compression

-- What the callers tell apart: `nil`, `errStoreObjectExists`, another error.
pub data Check (E : Type 0) : Type 0 where
  absent : Check E
  exists : Check E
  check_failed : E → Check E

pub data UploadError (E : Type 0) : Type 0 where
  overwrite_check : E → UploadError E
  temp_file : E → UploadError E
  dump_failed : UploadError E
  hash_mismatch : UploadError E
  size_mismatch : UploadError E
  marshal_failed : UploadError E
  seek_failed : E → UploadError E
  write_failed : E → UploadError E

-- What `dump` returns, and what it wrote to the file.
pub record Dumped (L : Type 0) : Type 0 where
  pub info : NarInfo
  pub listing : Option L
  pub content : Bytes

-- The keys of `compressionWrappers`.
unfoldable pub is_supported : Compression → Bool
is_supported no_compression = true
is_supported gzip = true
is_supported bzip2 = true
is_supported xz = true
is_supported c = false

unfoldable pub succeeded : {E : Type 0} → Option E → Bool
succeeded none = true
succeeded (some e) = false

-- `compressionExtensions[ct]`, which is empty where the map has no entry.
unfoldable pub extension_or_empty : Compression → Bytes
extension_or_empty c = elim (compression_extension c) [ none ↦ [] | some ext ↦ ext ]

module _ {E L : Type 0} (w : World E L) where
  -- A write, and the writes so far with it.
  abbrev pub written : List Event → Bytes → Bytes → Bytes → List Event
  written h key content mime =
      h ++ put key content mime (succeeded (w.write_all h key content mime)) ∷ []

  -- `checkUploadOverwrite`
  unfoldable pub add_to_existing : Bytes → NarInfo → NarInfo → List Event → List Event
  add_to_existing key local old h =
      let sig = w.add_signatures old.sig local.sig in
      let updated : List Event = elim (w.marshal_text (record old { sig = sig })) [
        | none ↦ h
        | some text ↦ written h key text w.nar_info_mime_type
      ] in
      if not (same old.nar_hash local.nar_hash) || not (old.nar_size == local.nar_size)
      then h
      else if leb (length sig) (length old.sig)
      then h
      else updated

  unfoldable pub check_upload_overwrite : Bytes → NarInfo → List Event → Check E × List Event
  check_upload_overwrite key local h = elim (w.read_all h key) [
    | not_found ↦ (absent, h)
    | read_failed e ↦ (check_failed e, h)
    | found text ↦ elim (w.unmarshal_text text) [
      | none ↦ (exists, h)
      | some old ↦ (exists, add_to_existing key local old h)
    ]
  ]

  -- `dump`: the archive is hashed, compressed, and hashed again on its way into the file.
  unfoldable pub dump : StorePath → Compression → Bool → Option (Dumped L)
  unfolding is_supported extension_or_empty
  dump path ct listing =
      let written_out : Option (Dumped L) = elim (w.dump_path path) [
        | none ↦ none
        | some nar ↦ elim (w.compress ct nar) [
          | none ↦ none
          | some content ↦ some (record {
            info = record {
              store_path = path;
              url =
                  codes "nar/"
                  ++ (w.raw_base32 (w.sha256 content) ++ (codes ".nar" ++ extension_or_empty ct));
              compression = ct;
              file_hash = w.sha256 content;
              file_size = pos (length content);
              nar_hash = w.sha256 nar;
              nar_size = length nar;
              references = [];
              deriver = [];
              sig = [];
              ca = [];
            };
            listing = if listing then w.nar_list nar else none;
            content = content;
          })
        ]
      ] in
      if is_supported ct then written_out else none

  -- The listing, whose failures are only logged.
  unfoldable pub write_listing : StorePath → Option L → List Event → List Event
  write_listing path none h = h
  write_listing path (some ls) h = elim (w.marshal_listing ls) [
    | none ↦ h
    | some text ↦ written h (w.digest path ++ w.listing_extension) text w.listing_mime_type
  ]

  -- The info that is uploaded: what the store reported, and what the dump wrote.
  abbrev pub published_info : NarInfo → NarInfo → NarInfo
  published_info info dumped = record info {
    file_hash = dumped.file_hash;
    file_size = dumped.file_size;
    url = dumped.url;
    compression = dumped.compression;
  }

  -- The last write.
  unfoldable pub write_nar_info : Bytes → Bytes → List Event → Option (UploadError E) × List Event
  write_nar_info key text h =
      let result : Option (UploadError E) = elim (w.write_all h key text w.nar_info_mime_type) [
        | none ↦ none
        | some e ↦ some (write_failed e)
      ] in
      (result, written h key text w.nar_info_mime_type)

  -- The changes to the bucket, once all has succeeded locally: the content first.
  unfoldable pub publish :
      Dumped L → NarInfo → Bytes → Bytes → List Event → Option (UploadError E) × List Event
  publish d info key text h =
      let mime = compression_mime_type w.nar_mime_type d.info.compression in
      let h' = written h d.info.url d.content mime in
      elim (w.write_all h d.info.url d.content mime) [
        | some e ↦ (some (write_failed e), h')
        | none ↦ write_nar_info key text (write_listing info.store_path d.listing h')
      ]

  -- From the comparison with what the store had reported.
  unfoldable pub finish_upload :
      Dumped L → NarInfo → Bytes → List Event → Option (UploadError E) × List Event
  finish_upload d info key h =
      let published : Option (UploadError E) × List Event =
        elim (w.marshal_text (published_info info d.info)) [
          | none ↦ (some marshal_failed, h)
          | some text ↦ elim w.seek_start [
            | some e ↦ (some (seek_failed e), h)
            | none ↦ publish d info key text h
          ]
        ] in
      if not (same d.info.nar_hash info.nar_hash)
      then (some hash_mismatch, h)
      else if not (d.info.nar_size == info.nar_size)
      then (some size_mismatch, h)
      else published

  unfoldable pub upload_unchecked :
      NarInfo → UploadOptions → Bytes → List Event → Option (UploadError E) × List Event
  upload_unchecked info opts key h = elim w.create_temp [
    | some e ↦ (some (temp_file e), h)
    | none ↦ elim (dump info.store_path opts.compression opts.create_listings) [
      | none ↦ (some dump_failed, h)
      | some d ↦ finish_upload d info key h
    ]
  ]

  abbrev pub nar_info_key : NarInfo → Bytes
  nar_info_key info = w.digest info.store_path ++ w.nar_info_extension

  -- What follows the check: a store object that exists is no error.
  unfoldable pub proceed :
      NarInfo → UploadOptions → Check E × List Event → Option (UploadError E) × List Event
  proceed info opts (exists, h) = (none, h)
  proceed info opts (check_failed e, h) = (some (overwrite_check e), h)
  proceed info opts (absent, h) = upload_unchecked info opts (nar_info_key info) h

  -- `uploadStorePath`
  unfoldable pub upload_store_path :
      NarInfo → UploadOptions → List Event → Option (UploadError E) × List Event
  unfolding proceed
  upload_store_path info opts h =
      if opts.overwrite
      then upload_unchecked info opts (nar_info_key info) h
      else proceed info opts (check_upload_overwrite (nar_info_key info) info h)
