-- ===== src/Stores/Uploaded.antt =====
-- What a bucket store finds after an upload.
use nixcached.Prelude.{
  ◌≡◌, refl, ap, ◌∙◌, true, false, ◌⊎◌, List, ◌++◌, Option, none, some, ◌==◌, Bytes, codes, same,
  has_prefix,
}
use nixcached.Nix.{Nix}
use nixcached.NarUrl.{is_digest}
use nixcached.Upload.{
  NarInfo, Event, ReadResult, found, not_found, World, UploadOptions, Dumped, dump, published_info,
  nar_info_key, upload_store_path,
}
use nixcached.Upload.Bucket.{Store, visible}
use nixcached.Upload.Trace.{listing_key}
use nixcached.Upload.Success.{upload_store_path_complete}
use nixcached.Stores.{answer, bucket_nar_info}

-- Reading what a bucket shows.
abbrev pub read_of : {E : Type 0} → Store → Bytes → ReadResult E
read_of s key = elim (s key) [ none ↦ not_found | some text ↦ found text ]

bucket_nar_info_at :
    (E : Type 0) {U : Type 0} (nix : Nix) (s : Store) (unmarshal_text : Bytes → Option NarInfo)
    (parse_url : Bytes → Option U) (resolve : Bytes → U → Bytes) (digest text : Bytes)
    (info : NarInfo) (u : U)
    → is_digest nix digest ≡ true
    → s (digest ++ nix.nar_info_extension) ≡ some text
    → unmarshal_text text ≡ some info
    → parse_url info.url ≡ some u
    → bucket_nar_info {E = E} nix (read_of s) unmarshal_text parse_url resolve digest
      ≡ answer (record info { url = resolve (digest ++ nix.nar_info_extension) u })
unfolding bucket_nar_info
bucket_nar_info_at E nix s unmarshal_text parse_url resolve digest text info u d t i p =
    rw (d, bucket_nar_info, t, i, p) refl

-- If nothing fails in an upload that is forced or finds no `.narinfo` file, and the archive is what
-- the store had reported, a bucket store then finds the object under its digest: the info that the
-- local store had reported, with the hash, the size and the compression of the file that was
-- written, and with its URL resolved. It is assumed that parsing undoes printing for this info.
pub bucket_nar_info-upload_store_path :
    {E L U : Type 0} (w : World E L)
    → ((h : List Event) (key content mime : Bytes) → w.write_all h key content mime ≡ none)
    → (nix : Nix) (parse_url : Bytes → Option U) (resolve : Bytes → U → Bytes)
    → (d : Dumped L) (info : NarInfo) (opts : UploadOptions) (text : Bytes) (h : List Event)
      (start : Store) (u : U)
    → nix.nar_info_extension ≡ w.nar_info_extension
    → w.create_temp ≡ none
    → w.seek_start ≡ none
    → dump w info.store_path opts.compression opts.create_listings ≡ some d
    → same d.info.nar_hash info.nar_hash ≡ true
    → d.info.nar_size == info.nar_size ≡ true
    → w.marshal_text (published_info w info d.info) ≡ some text
    → w.unmarshal_text text ≡ some (published_info w info d.info)
    → (opts.overwrite ≡ true) ⊎ (w.read_all h (nar_info_key w info) ≡ not_found)
    → has_prefix (codes "nar/") (nar_info_key w info) ≡ false
    → has_prefix (codes "nar/") (listing_key w info) ≡ false
    → is_digest nix (w.digest info.store_path) ≡ true
    → parse_url d.info.url ≡ some u
    → bucket_nar_info {E = E} nix
        (read_of (visible (upload_store_path w info opts h).1 start))
        w.unmarshal_text
        parse_url
        resolve
        (w.digest info.store_path)
      ≡ answer (record (published_info w info d.info) {
        url = resolve (w.digest info.store_path ++ nix.nar_info_extension) u;
      })
bucket_nar_info-upload_store_path w fine nix parse_url resolve d info opts text h start u ext t s o
      a b m back c kn ln digest p =
    let (ok, shown, content) =
      upload_store_path_complete w fine d info opts text h start t s o a b m c kn ln in
    bucket_nar_info_at _ nix (visible (upload_store_path w info opts h).1 start) w.unmarshal_text
      parse_url resolve (w.digest info.store_path) text (published_info w info d.info) u digest
      (ap (λ x. visible (upload_store_path w info opts h).1 start (w.digest info.store_path ++ x))
          ext
        ∙ shown)
      back p
