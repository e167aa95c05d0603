-- ===== src/Download/Uploaded.antt =====
-- What a bucket store sends after an upload.
use nixcached.Prelude.{
  ◌≡◌, refl, true, false, ◌⊎◌, List, [], ◌++◌, none, some, ◌==◌, All, Bytes, codes, same,
  has_prefix,
}
use nixcached.Upload.{
  Event, NarInfo, found, not_found, World, UploadOptions, Dumped, dump, published_info,
  nar_info_key, upload_store_path,
}
use nixcached.Upload.Bucket.{Store, visible}
use nixcached.Upload.Trace.{listing_key}
use nixcached.Upload.Success.{upload_store_path_complete}
use nixcached.Stores.Uploaded.{read_of}
use nixcached.Serve.{complete, gone}
use nixcached.Urls.{Url, elements}
use nixcached.Urls.Elements.{IsPlain}
use nixcached.Urls.Bucket.{BucketUrl, url_key}
use nixcached.Urls.Bucket.Keys.{IsOpen, IsServed}
use nixcached.Urls.Bucket.Finds.{url_key-finds}
use nixcached.Download.{Blobs, send_encoded, bucket_download}

-- A bucket that can be read, whose objects have no Content-Encoding, as an upload writes them.
abbrev pub blobs_of : {E : Type 0} → Store → Blobs E
blobs_of s = record {
  attributes = λ key. elim (s key) [ none ↦ not_found | some content ↦ found [] ];
  download = λ key. elim (s key) [ none ↦ gone [] | some content ↦ complete content ];
  read = λ key. read_of s key;
  gunzip = λ content. none;
  unbrotli = λ content. none;
  unmarshal_cache_info = λ text. none;
}

bucket_download-visible :
    (E : Type 0) (s : Store) (b : BucketUrl) (u : Url) (key content : Bytes)
    → url_key b u ≡ some key
    → s key ≡ some content
    → bucket_download {E = E} (blobs_of s) b u ≡ complete content
unfolding bucket_download send_encoded
bucket_download-visible E s b u key content k c = rw (k, bucket_download, c, send_encoded, c) refl

-- If nothing fails in an upload that is forced or finds no `.narinfo` file, and the archive is what
-- the store had reported, then a bucket store whose path is put together of plain elements, as
-- `OpenBucket` makes it, sends exactly the file that the upload wrote, for a URL that it serves and
-- whose path is that of the bucket, a slash and the URL in the `.narinfo` file, where that has no `.`,
-- no `..` and nothing empty between its slashes. The keys of the `.narinfo` file and of the listing do
-- not begin with `nar/`.
pub bucket_download-upload_store_path :
    {E L : Type 0} (w : World E L)
    → ((h : List Event) (key content mime : Bytes) → w.write_all h key content mime ≡ none)
    → (d : Dumped L) (info : NarInfo) (opts : UploadOptions) (text : Bytes) (h : List Event)
      (start : Store) (b : BucketUrl) (u : Url)
    → w.create_temp ≡ none
    → w.seek_start ≡ none
    → dump w info.store_path opts.compression opts.create_listings ≡ some d
    → same d.info.nar_hash info.nar_hash ≡ true
    → d.info.nar_size == info.nar_size ≡ true
    → w.marshal_text (published_info w info d.info) ≡ some text
    → (opts.overwrite ≡ true) ⊎ (w.read_all h (nar_info_key w info) ≡ not_found)
    → has_prefix (codes "nar/") (nar_info_key w info) ≡ false
    → has_prefix (codes "nar/") (listing_key w info) ≡ false
    → IsOpen b
    → IsServed b u
    → u.path ≡ b.path ++ (codes "/" ++ d.info.url)
    → All IsPlain (elements d.info.url)
    → bucket_download {E = E} (blobs_of (visible (upload_store_path w info opts h).1 start)) b u
      ≡ complete d.content
bucket_download-upload_store_path w fine d info opts text h start b u t s o a e m c kn ln o' served
      path plain =
    let (ok, shown, content) =
      upload_store_path_complete w fine d info opts text h start t s o a e m c kn ln in
    bucket_download-visible _ (visible (upload_store_path w info opts h).1 start) b u d.info.url
      d.content (url_key-finds b u d.info.url o' served path plain) content
