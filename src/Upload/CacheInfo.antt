-- ===== src/Upload/CacheInfo.antt =====
-- `ensureCacheInfo` (upload.go): the bucket's `nix-cache-info` file is made or compared before
-- anything is uploaded.
use nixcached.Prelude.{
  ◌≡◌, refl, true, false, List, [], ◌∷◌, ◌++◌, Option, none, some, if◌then◌else◌, Bytes, same,
  same_sound, ◌⊎◌, inl, inr, Bool-cases, Option-cases, is_empty,
}
use nixcached.Upload.{Event, put, ReadResult, found, not_found, read_failed}
use nixcached.Upload.Bucket.{Store, visible, visible-snoc, apply_event-same}
use nixcached.Upload.Trace.{ReadResult-cases}

pub data CacheInfoError (E : Type 0) : Type 0 where
  get_failed : E → CacheInfoError E
  unparsable : CacheInfoError E
  create_failed : CacheInfoError E
  other_directory : CacheInfoError E

-- What it uses of the bucket and of the nix module. An info is its store directory.
pub record CacheWorld (E : Type 0) : Type 0 where
  pub read_all : List Event → Bytes → ReadResult E
  pub write_all : List Event → Bytes → Bytes → Bytes → Option E
  pub cache_info_name : Bytes
  pub cache_info_mime_type : Bytes
  pub default_dir : Bytes
  pub marshal_cache_info : Bytes → Option Bytes
  pub unmarshal_cache_info : Bytes → Option Bytes

module _ {E : Type 0} (w : CacheWorld E) where
  unfoldable pub create_cache_info : Bytes → List Event → Option (CacheInfoError E) × List Event
  create_cache_info dir h = elim (w.marshal_cache_info dir) [
    | none ↦ (some create_failed, h)
    | some text ↦ elim (w.write_all h w.cache_info_name text w.cache_info_mime_type) [
      | some e ↦
          (some create_failed, h ++ put w.cache_info_name text w.cache_info_mime_type false ∷ [])
      | none ↦ (none, h ++ put w.cache_info_name text w.cache_info_mime_type true ∷ [])
    ]
  ]

  -- The store directory of a cache info, if it names none.
  unfoldable pub remote_dir : Bytes → Bytes
  remote_dir dir = if is_empty dir then w.default_dir else dir

  unfoldable pub ensure_cache_info : Bytes → List Event → Option (CacheInfoError E) × List Event
  unfolding create_cache_info remote_dir
  ensure_cache_info dir h = elim (w.read_all h w.cache_info_name) [
    | not_found ↦ create_cache_info dir h
    | read_failed e ↦ (some (get_failed e), h)
    | found text ↦ elim (w.unmarshal_cache_info text) [
      | none ↦ (some unparsable, h)
      | some remote ↦ ((if same (remote_dir remote) dir then none else some other_directory), h)
    ]
  ]

  -- The bucket is known to be for the directory `dir`.
  abbrev pub IsFor : Bytes → List Event → List Event → Store → Type 0
  IsFor dir h all start =
      ((text remote : Bytes) × (w.read_all h w.cache_info_name ≡ found text)
        × (w.unmarshal_cache_info text ≡ some remote)
        × (remote_dir remote ≡ dir)
        × (all ≡ h))
      ⊎ ((text : Bytes) × (w.read_all h w.cache_info_name ≡ not_found)
          × (w.marshal_cache_info dir ≡ some text)
          × (visible all start w.cache_info_name ≡ some text))

  -- A result in which no error means that the bucket is for `dir`.
  abbrev Establishes : Bytes → List Event → Store → Option (CacheInfoError E) × List Event → Type 0
  Establishes dir h start (none, all) = IsFor dir h all start
  Establishes dir h start (some e, all) = Unit

  create_cache_info-Establishes :
      (dir : Bytes) (h : List Event) (start : Store)
      → w.read_all h w.cache_info_name ≡ not_found
      → Establishes dir h start (create_cache_info dir h)
  unfolding create_cache_info
  create_cache_info-Establishes dir h start r = elim (Option-cases (w.marshal_cache_info dir)) [
    | inl m ↦ rw (m, create_cache_info) tt
    | inr (text, m) ↦
        elim (Option-cases (w.write_all h w.cache_info_name text w.cache_info_mime_type)) [
          | inr (x, o) ↦ rw (m, create_cache_info, o) tt
          | inl o ↦
              rw (m, create_cache_info, o)
                (inr (
                  text,
                  r,
                  m,
                  rw visible-snoc (
                      apply_event-same w.cache_info_name text w.cache_info_mime_type
                        (visible h start)),
                ))
        ]
  ]

  compare-Establishes :
      (dir text remote : Bytes) (h : List Event) (start : Store)
      → w.read_all h w.cache_info_name ≡ found text
      → w.unmarshal_cache_info text ≡ some remote
      → Establishes dir h start
          ((if same (remote_dir remote) dir then none else some other_directory), h)
  compare-Establishes dir text remote h start r u =
      elim (Bool-cases (same (remote_dir remote) dir)) [
        | inl y ↦ rw y (inl (text, remote, r, u, same_sound (remote_dir remote) dir y, refl))
        | inr n ↦ rw n tt
      ]

  ensure_cache_info-Establishes :
      (dir : Bytes) (h : List Event) (start : Store)
      → Establishes dir h start (ensure_cache_info dir h)
  unfolding ensure_cache_info
  ensure_cache_info-Establishes dir h start =
      elim (ReadResult-cases (w.read_all h w.cache_info_name)) [
        | inl r ↦ rw (r, ensure_cache_info) (create_cache_info-Establishes dir h start r)
        | inr (inl (e, r)) ↦ rw (r, ensure_cache_info) tt
        | inr (inr (text, r)) ↦ elim (Option-cases (w.unmarshal_cache_info text)) [
          | inl u ↦ rw (r, ensure_cache_info, u) tt
          | inr (remote, u) ↦
              rw (r, ensure_cache_info, u) (compare-Establishes dir text remote h start r u)
        ]
      ]

  no_error :
      (dir : Bytes) (h : List Event) (start : Store) (r : Option (CacheInfoError E) × List Event)
      → Establishes dir h start r
      → r.0 ≡ none
      → IsFor dir h r.1 start
  no_error dir h start (none, all) f e = f
  no_error dir h start (some x, all) f e = cc e

  -- If `ensureCacheInfo` returns no error, then the bucket's file was there and names the local
  -- store directory (the default one, if it names none), and nothing was written; or there was no
  -- file, and now there is one that is made from the local store directory.
  pub ensure_cache_info-IsFor :
      (dir : Bytes) (h : List Event) (start : Store)
      → (ensure_cache_info dir h).0 ≡ none
      → IsFor dir h (ensure_cache_info dir h).1 start
  ensure_cache_info-IsFor dir h start e =
      no_error dir h start (ensure_cache_info dir h) (ensure_cache_info-Establishes dir h start) e
