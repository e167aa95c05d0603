-- ===== src/Tests/Bucket.antt =====
-- Examples of uploads into small buckets.
use nixcached.Prelude.{
  ℕ, pos, ◌≡◌, refl, true, false, ◌⊎◌, inr, List, [], ◌∷◌, ◌++◌, none, some, Bytes, codes, same,
  has_prefix,
}
use nixcached.Compression.{no_compression, gzip, compression_extension}
use nixcached.Upload.{
  NarInfo, Event, put, ReadResult, found, not_found, World, UploadOptions, Dumped, dump,
  check_upload_overwrite, upload_store_path, succeeded, add_to_existing,
}
use nixcached.Upload.Bucket.{Store, visible}
use nixcached.Upload.Success.{upload_store_path_complete}
use nixcached.Upload.Overwrite.{AddsSignatures, upload_store_path-found}
use nixcached.Upload.CacheInfo.{CacheWorld}

-- What the local store reports of the object `ab-x`.
abbrev pub reported : NarInfo
reported = record {
  store_path = codes "ab-x";
  url = [];
  compression = no_compression;
  file_hash = [];
  file_size = pos 0;
  nar_hash = codes "NAR";
  nar_size = 3;
  references = [];
  deriver = [];
  sig = codes "k" ∷ [];
  ca = [];
}

-- What an info read from the bucket says: no signatures yet.
abbrev unsigned : NarInfo
unsigned = record reported { sig = [] }

-- A world in which the hash of a text is the text and nothing fails; the reads are an argument.
abbrev pub world : ReadResult ℕ → World ℕ Bytes
world read = record {
  read_all = λ h key. read;
  write_all = λ h key content mime. none;
  digest = λ p. codes "ab";
  nar_info_extension = codes ".narinfo";
  listing_extension = codes ".ls";
  nar_info_mime_type = codes "text/x-nix-narinfo";
  nar_mime_type = codes "application/x-nix-nar";
  listing_mime_type = codes "application/json";
  marshal_text = λ info. some (info.url ++ info.nar_hash);
  unmarshal_text = λ text. some unsigned;
  add_signatures = λ old new. old ++ new;
  raw_base32 = λ hash. hash;
  sha256 = λ text. text;
  create_temp = none;
  seek_start = none;
  dump_path = λ path. some (codes "NAR");
  compress = λ ct nar. some (codes "z" ++ nar);
  nar_list = λ nar. some nar;
  marshal_listing = λ ls. some ls;
}

abbrev pub plain_options : UploadOptions
plain_options = record { overwrite = false; create_listings = true; compression = gzip }

abbrev pub dumped : Dumped Bytes
dumped = record {
  info = record {
    store_path = codes "ab-x";
    url = codes "nar/zNAR.nar.gz";
    compression = gzip;
    file_hash = codes "zNAR";
    file_size = pos 4;
    nar_hash = codes "NAR";
    nar_size = 3;
    references = [];
    deriver = [];
    sig = [];
    ca = [];
  };
  listing = some (codes "NAR");
  content = codes "zNAR";
}

abbrev pub empty_bucket : Store
empty_bucket key = none

abbrev writes : List Event
writes = (upload_store_path (world not_found) reported plain_options []).1

upload_store_path_complete_example :
    ((upload_store_path (world not_found) reported plain_options []).0 ≡ none)
    × (visible writes empty_bucket (codes "ab.narinfo") ≡ some (codes "nar/zNAR.nar.gzNAR"))
    × (visible writes empty_bucket (codes "nar/zNAR.nar.gz") ≡ some (codes "zNAR"))
unfolding has_prefix dump compression_extension same
upload_store_path_complete_example =
    upload_store_path_complete (world not_found) (λ h key content mime. refl) dumped reported
      plain_options (codes "nar/zNAR.nar.gzNAR") [] empty_bucket refl refl refl refl refl refl
      (inr refl) refl refl

abbrev taken_bucket : World ℕ Bytes
taken_bucket = world (found (codes "old"))

upload_store_path-found_example :
    ((upload_store_path taken_bucket reported plain_options []).0 ≡ none)
    × (((upload_store_path taken_bucket reported plain_options []).1 ≡ [])
        ⊎ AddsSignatures taken_bucket
            (codes "ab.narinfo")
            reported
            (codes "old")
            []
            (upload_store_path taken_bucket reported plain_options []).1)
upload_store_path-found_example =
    upload_store_path-found taken_bucket reported plain_options (codes "old") [] refl refl

-- The second of the two alternatives holds here.
signatures_added :
    (upload_store_path taken_bucket reported plain_options []).1
    ≡ put (codes "ab.narinfo") (codes "NAR") (codes "text/x-nix-narinfo") true ∷ []
unfolding upload_store_path check_upload_overwrite same succeeded add_to_existing
signatures_added = refl

abbrev pub new_bucket : CacheWorld ℕ
new_bucket = record {
  read_all = λ h key. not_found;
  write_all = λ h key content mime. none;
  cache_info_name = codes "nix-cache-info";
  cache_info_mime_type = codes "text/x-nix-cache-info";
  default_dir = codes "/nix/store";
  marshal_cache_info = λ dir. some (codes "StoreDir: " ++ dir);
  unmarshal_cache_info = λ text. none;
}
