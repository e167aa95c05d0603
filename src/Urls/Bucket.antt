-- ===== src/Urls/Bucket.antt =====
-- The URL of a bucket and the keys in it: `OpenBucket` and `urlKey` of
-- internal/nixstore/bucket.go.
pub mod Keys
pub mod Finds
use nixcached.Prelude.{
  Bool, true, false, ◌&&◌, ◌||◌, not, List, [], ◌∷◌, ◌++◌, Option, none, some, if◌then◌else◌,
  is_empty, Bytes, codes, same, cut_prefix, cut_suffix,
}
use nixcached.Nix.{Nix}
use nixcached.NarUrl.{is_nar_info_path}
use nixcached.Urls.{Url, clean}

-- What a `Bucket` keeps of its URL.
pub record BucketUrl : Type 0 where
  pub scheme : Bytes
  pub host : Bytes
  pub path : Bytes

unfoldable pub bucket_path : Bytes → Bytes
bucket_path path = let c = clean (codes "/" ++ path) in if same c (codes "/") then [] else c

-- `OpenBucket`, where the opener is a parameter.
unfoldable pub open_bucket : (Bytes → Option Url) → (Url → Bool) → Bytes → Option BucketUrl
open_bucket parse opens text = elim (parse text) [
  | none ↦ none
  | some u ↦
      if is_empty u.scheme
      then none
      else if not (is_empty u.opaque)
      then none
      else if not (opens u)
      then none
      else some (record { scheme = u.scheme; host = u.host; path = bucket_path u.path })
]

unfoldable pub url_key : BucketUrl → Url → Option Bytes
url_key b u =
    let cut = cut_prefix (b.path ++ codes "/") (clean u.path) in
    if not (is_empty u.opaque) || not (is_empty u.fragment) || not (is_empty u.raw_query)
    then none
    else if not (same u.scheme b.scheme) || not (same u.host b.host)
    then none
    else cut
