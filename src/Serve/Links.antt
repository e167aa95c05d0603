-- ===== src/Serve/Links.antt =====
-- The URL in a `.narinfo` file that the server answers is one under which it serves the archive.
use nixcached.Prelude.{
  ◌≡◌, refl, Bool, true, false, not, List, [], ◌∷◌, ◌++◌, none, some, >>=-eq-some, arith, if_rule,
  Option-cases, ◌⊎◌, inl, inr, Bytes, codes, cut_suffix, same_refl,
}
use nixcached.Nix.{Nix, NarExtension}
use nixcached.Compression.{
  Compression, unset, no_compression, gzip, bzip2, brotli, xz, zstandard, other,
  compression_extension, same_compression,
}
use nixcached.NarUrl.{trim_prefix, is_digest, is_nar_info_path, parse_nar_url_path, build_nar_url}
use nixcached.NarUrl.RoundTrip.{Visits, parse_nar_url_path-build_nar_url}
use nixcached.Upload.{NarInfo}
use nixcached.Serve.{
  Backend, Lookup, hit, missing, lookup_failed, Method, Action, reply_error, Response, failed,
  not_found_response, response, trim_suffix, send_nar, serve_found, serve_nar, publish_info,
  serve_nar_info,
}

-- All extensions are tried.
abbrev pub VisitsAll : List Compression → Type 0
VisitsAll order =
    (c : Compression) (ext : Bytes) → compression_extension c ≡ some ext → Visits c order

same_compression_refl : (c : Compression) → same_compression c c ≡ true
unfolding same_compression
same_compression_refl unset = refl
same_compression_refl no_compression = refl
same_compression_refl gzip = refl
same_compression_refl bzip2 = refl
same_compression_refl brotli = refl
same_compression_refl xz = refl
same_compression_refl zstandard = refl
same_compression_refl (other s) = same_refl s

Lookup-cases :
    (l : Lookup) → ((info : NarInfo) × (l ≡ hit info)) ⊎ ((l ≡ missing) ⊎ (l ≡ lookup_failed))
Lookup-cases (hit info) = inl (info, refl)
Lookup-cases missing = inr (inl refl)
Lookup-cases lookup_failed = inr (inr refl)

-- The path of a `.narinfo` file has a digest before its extension.
nar_info_path-digest :
    (nix : Nix) (path : Bytes)
    → is_nar_info_path nix path ≡ true
    → is_digest nix (trim_suffix nix.nar_info_extension (trim_prefix (codes "/") path)) ≡ true
unfolding is_nar_info_path trim_suffix
nar_info_path-digest nix path h =
    elim (Option-cases (cut_suffix nix.nar_info_extension (trim_prefix (codes "/") path))) [
      | inl e ↦ cc (rw (e, is_nar_info_path) at h)
      | inr (d, e) ↦ rw (e, trim_suffix) (rw (e, is_nar_info_path) at h)
    ]

holds : (t : Bool) → not t ≡ false → t ≡ true
holds t h = ground arith

module _ {U : Type 0} (nix : Nix) (order : List Compression) (b : Backend U) where
  -- The archive of an info, if its URL can be parsed.
  abbrev pub archive_reply : Method → NarInfo → List Action
  archive_reply method info = elim (b.parse_url info.url) [
    | none ↦ reply_error 500 ∷ []
    | some url ↦ send_nar nix order b method info info.compression url
  ]

  abbrev Published : Bytes → NarInfo → Response NarInfo → Type 0
  Published digest info (response published headers text) =
      (build_nar_url nix digest info.compression ≡ some published.url)
      × (published ≡ record info { url = published.url })
  Published digest info r = Unit

  publish_info-Published :
      (digest : Bytes) (info : NarInfo)
      → Published digest info (publish_info nix order b digest info)
  unfolding publish_info
  publish_info-Published digest info =
      elim (Option-cases (build_nar_url nix digest info.compression)) [
        | inl e ↦ rw (e, publish_info) tt
        | inr (url, e) ↦ elim (Option-cases (b.marshal_text (record info { url = url }))) [
          | inl f ↦ rw (e, publish_info, f) tt
          | inr (text, f) ↦ rw (e, publish_info, f) (e, refl)
        ]
      ]

  abbrev Served : Method → Bytes → Response NarInfo → Type 0
  Served method digest (response published headers text) =
      (info : NarInfo) × (b.nar_info digest ≡ hit info)
      × (published ≡ record info { url = published.url })
      × (serve_nar nix order b method (codes "/" ++ published.url) ≡ archive_reply method info)
  Served method digest r = Unit

  serve_nar_at :
      (method : Method) (path digest : Bytes) (info : NarInfo)
      → b.connects ≡ true
      → parse_nar_url_path nix order path ≡ some (digest, info.compression)
      → b.nar_info digest ≡ hit info
      → serve_nar nix order b method path ≡ archive_reply method info
  unfolding serve_nar serve_found
  serve_nar_at method path digest info c p l =
      rw (c, p, serve_nar, l, same_compression_refl info.compression) refl

  build-Visits :
      VisitsAll order
      → (digest : Bytes) (info : NarInfo) (url : Bytes)
      → build_nar_url nix digest info.compression ≡ some url
      → Visits info.compression order
  unfolding build_nar_url
  build-Visits all digest info url u =
      let (ext, o, e) = >>=-eq-some (compression_extension info.compression) _ u in
      all info.compression ext o

  Published-Served :
      NarExtension nix
      → VisitsAll order
      → (method : Method) (digest : Bytes) (info : NarInfo) (r : Response NarInfo)
      → b.connects ≡ true
      → is_digest nix digest ≡ true
      → b.nar_info digest ≡ hit info
      → Published digest info r
      → Served method digest r
  Published-Served law all method digest info failed c d l p = tt
  Published-Served law all method digest info not_found_response c d l p = tt
  Published-Served law all method digest info (response published headers text) c d l (u, e) = (
    info,
    l,
    e,
    serve_nar_at method (codes "/" ++ published.url) digest info c
        (parse_nar_url_path-build_nar_url nix order law digest info.compression published.url d
          (build-Visits all digest info published.url u) u)
        l,
  )

  serve_nar_info-Served :
      NarExtension nix
      → VisitsAll order
      → (method : Method) (path : Bytes)
      → Served method
          (trim_suffix nix.nar_info_extension (trim_prefix (codes "/") path))
          (serve_nar_info nix order b path)
  unfolding serve_nar_info
  serve_nar_info-Served law all method path =
      let digest = trim_suffix nix.nar_info_extension (trim_prefix (codes "/") path) in
      if_rule (Served method digest) (not b.connects) _ _ (λ c. tt)
        (λ c.
          if_rule (Served method digest) (not (is_nar_info_path nix path)) _ _ (λ i. tt)
            (λ i. elim (Lookup-cases (b.nar_info digest)) [
              | inl (info, l) ↦
                  rw (l, serve_nar_info)
                    (Published-Served law all method digest info
                      (publish_info nix order b digest info) (holds b.connects c)
                      (nar_info_path-digest nix path (holds (is_nar_info_path nix path) i)) l
                      (publish_info-Published digest info))
              | inr (inl l) ↦ rw (l, serve_nar_info) tt
              | inr (inr l) ↦ rw (l, serve_nar_info) tt
            ]))

  -- If every extension is tried, the URL in a `.narinfo` file that the server answers is one under
  -- which it serves the archive of the same store object, in the same compression, as long as the
  -- cache answers alike: both come from the info that the cache has for the digest in the path, and
  -- the answer differs from that info in its URL only.
  pub serve_nar_info-served :
      NarExtension nix
      → VisitsAll order
      → (method : Method) (path : Bytes) (published : NarInfo) (headers : List (Bytes × Bytes))
        (text : Bytes)
      → serve_nar_info nix order b path ≡ response published headers text
      → (info : NarInfo) × (b.nar_info
            (trim_suffix nix.nar_info_extension (trim_prefix (codes "/") path))
          ≡ hit info)
        × (published ≡ record info { url = published.url })
        × (serve_nar nix order b method (codes "/" ++ published.url) ≡ archive_reply method info)
  serve_nar_info-served law all method path published headers text e =
      rw e at (serve_nar_info-Served law all method path)
