-- ===== src/Serve.antt =====
-- The handlers of serve.go: which one `ServeHTTP` picks for a request, and what `serveNAR`,
-- `serveNARInfo` and `serveCacheInfo` answer. What the cache connection returns is a parameter, and
-- so are the packages for URLs, hashes and the Accept header.
pub mod Links
pub mod Route
pub mod Run
pub mod Sockets
pub mod Balance
pub mod Size
use nixcached.Prelude.{
  ℕ, ℤ, pos, ◌≡◌, Bool, true, false, not, List, [], ◌∷◌, ◌++◌, Option, none, some, ◌==◌,
  if◌then◌else◌, length, Bytes, codes, same, has_prefix, cut_suffix,
}
use nixcached.Nix.{Nix}
use nixcached.Compression.{Compression, compression_mime_type, same_compression}
use nixcached.NarUrl.{trim_prefix, is_nar_info_path, parse_nar_url_path, build_nar_url}
use nixcached.Upload.{NarInfo, Hash}

-- `uiCacheConn.NARInfo`, with `ErrNotFound` told apart.
pub data Lookup : Type 0 where
  hit : NarInfo → Lookup
  missing : Lookup
  lookup_failed : Lookup

-- `uiCacheConn.Download`: the bytes that were written, and how it ended.
pub data Download : Type 0 where
  complete : Bytes → Download
  gone : Bytes → Download
  broken : Bytes → Download

pub data Method : Type 0 where
  get : Method
  head : Method

-- What a handler does to its `http.ResponseWriter`; an error is `http.Error` or `http.NotFound`.
pub data Action : Type 0 where
  set_header : Bytes → Bytes → Action
  delete_header : Bytes → Action
  write_body : Bytes → Action
  reply_error : ℕ → Action

-- What the handlers use, for parsed URLs of type `U`.
pub record Backend (U : Type 0) : Type 0 where
  -- whether `srv.cache.Get` returns a connection
  pub connects : Bool
  pub nar_info : Bytes → Lookup
  pub cache_info : Option Bytes
  pub parse_url : Bytes → Option U
  pub download : U → Download
  pub marshal_text : NarInfo → Option Bytes
  pub marshal_cache_info : Bytes → Option Bytes
  pub format_int : ℤ → Bytes
  pub sri : Hash → Bytes
  pub nar_mime_type : Bytes
  pub nar_info_mime_type : Bytes
  pub cache_info_mime_type : Bytes

-- What a function for `action.NewHandler` returns: an error, `action.ErrNotFound`, or the headers
-- and the body of its representation that is not HTML, and the data for the HTML template.
pub data Response (T : Type 0) : Type 0 where
  failed : Response T
  not_found_response : Response T
  response : T → List (Bytes × Bytes) → Bytes → Response T

-- `strings.TrimSuffix`
unfoldable pub trim_suffix : Bytes → Bytes → Bytes
trim_suffix suffix s = elim (cut_suffix suffix s) [ none ↦ s | some r ↦ r ]

module _ {U : Type 0} (nix : Nix) (order : List Compression) (b : Backend U) where
  -- The end of `serveNAR`: the headers, and the archive for other methods than HEAD.
  unfoldable pub send_body : U → List Action
  send_body url = elim (b.download url) [
    | complete bytes ↦ write_body bytes ∷ []
    | broken bytes ↦ write_body bytes ∷ []
    | gone bytes ↦
        write_body bytes
        ∷ delete_header (codes "Content-Length")
        ∷ delete_header (codes "Content-Type")
        ∷ delete_header (codes "ETag")
        ∷ reply_error 404
        ∷ []
  ]

  unfoldable pub send_nar : Method → NarInfo → Compression → U → List Action
  unfolding send_body
  send_nar method info compression url =
      let body : List Action = elim method [ head ↦ [] | get ↦ send_body url ] in
      set_header (codes "Content-Length") (b.format_int info.file_size)
      ∷ set_header (codes "Content-Type") (compression_mime_type b.nar_mime_type compression)
      ∷ set_header (codes "ETag") (codes "\"" ++ (b.sri info.file_hash ++ codes "\""))
      ∷ body

  -- `serveNAR` from `info.Compression` on.
  unfoldable pub serve_found : Method → NarInfo → Compression → List Action
  unfolding send_nar
  serve_found method info compression =
      let reply : List Action = elim (b.parse_url info.url) [
        | none ↦ reply_error 500 ∷ []
        | some url ↦ send_nar method info compression url
      ] in
      if not (same_compression info.compression compression) then reply_error 404 ∷ [] else reply

  -- `serveNAR`
  unfoldable pub serve_nar : Method → Bytes → List Action
  unfolding serve_found
  serve_nar method path =
      let reply : List Action = elim (parse_nar_url_path nix order path) [
        | none ↦ reply_error 404 ∷ []
        | some (digest, compression) ↦ elim (b.nar_info digest) [
          | missing ↦ reply_error 404 ∷ []
          | lookup_failed ↦ reply_error 500 ∷ []
          | hit info ↦ serve_found method info compression
        ]
      ] in
      if not b.connects then reply_error 500 ∷ [] else reply

  -- The headers of a representation.
  abbrev pub described : Bytes → Bytes → List (Bytes × Bytes)
  described mime data_ =
      (codes "Content-Type", mime)
      ∷ (codes "Content-Length", b.format_int (pos (length data_)))
      ∷ []

  -- `serveNARInfo` from the call of `buildNARURL` on.
  unfoldable pub publish_info : Bytes → NarInfo → Response NarInfo
  publish_info digest info = elim (build_nar_url nix digest info.compression) [
    | none ↦ failed
    | some url ↦ elim (b.marshal_text (record info { url = url })) [
      | none ↦ failed
      | some text ↦ response (record info { url = url }) (described b.nar_info_mime_type text) text
    ]
  ]

  unfoldable pub serve_nar_info : Bytes → Response NarInfo
  unfolding publish_info trim_suffix
  serve_nar_info path =
      let digest = trim_suffix nix.nar_info_extension (trim_prefix (codes "/") path) in
      let reply : Response NarInfo = elim (b.nar_info digest) [
        | missing ↦ not_found_response
        | lookup_failed ↦ failed
        | hit info ↦ publish_info digest info
      ] in
      if not b.connects
      then failed
      else if not (is_nar_info_path nix path)
      then not_found_response
      else reply

  unfoldable pub serve_cache_info : Response Unit
  serve_cache_info =
      let reply : Response Unit = elim b.cache_info [
        | none ↦ failed
        | some info ↦ elim (b.marshal_cache_info info) [
          | none ↦ failed
          | some text ↦ response tt (described b.cache_info_mime_type text) text
        ]
      ] in
      if not b.connects then failed else reply
