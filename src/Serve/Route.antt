-- ===== src/Serve/Route.antt =====
-- `ServeHTTP` (serve.go): which handler answers a path. Methods other than GET and HEAD are left to
-- the package of the handlers.
use nixcached.Prelude.{
  ℕ, ◌≡◌, refl, sym, ap, ◌∙◌, Bool, true, false, ◌||◌, not, List, [], ◌∷◌, ◌++◌, Option, none, some,
  >>=-eq-some, arith, ◌==◌, if◌then◌else◌, Option-cases, Bool-cases, inl, inr, Bytes, codes, same,
  same_sound, has_prefix, has_prefix-append, contains_byte, cut_prefix, cut_prefix_sound,
  cut_suffix, cut_suffix_sound,
}
use nixcached.Nix.{Nix}
use nixcached.Compression.{Compression}
use nixcached.NarUrl.{trim_prefix, is_digest, is_nar_info_path, parse_nar_url_path}

-- What the routing uses, for parsed Accept headers of type `A`.
pub record Site (A : Type 0) : Type 0 where
  pub has_templates : Bool
  pub has_static : Bool
  pub cache_info_name : Bytes
  pub parse_accept : Bytes → Option A
  -- the quality of HTML and of `.narinfo` files, in thousandths
  pub html_quality : A → ℕ
  pub nar_info_quality : A → ℕ
  -- the text of the new header, in which `.narinfo` files come first
  pub nar_info_first : Bytes

-- The handlers; the one for `.narinfo` files with the Accept header that it gets, and the one for
-- static files with the rest of the path.
pub data Target : Type 0 where
  server_error : Target
  index : Target
  cache_info : Target
  nar_info : Bytes → Target
  static : Bytes → Target
  nar : Target
  nowhere : Target

module _ {A : Type 0} (site : Site A) (nix : Nix) (order : List Compression) where
  unfoldable pub rewrite_accept : Bytes → Bytes
  rewrite_accept old = elim (site.parse_accept old) [
    | none ↦ site.nar_info_first
    | some accept ↦
        if site.html_quality accept == site.nar_info_quality accept
        then site.nar_info_first
        else old
  ]

  -- The prefix of static files, which is stripped.
  unfoldable pub route_rest : Bytes → Target
  route_rest path =
      let archive : Target = elim (parse_nar_url_path nix order path) [
        | none ↦ nowhere
        | some found ↦ nar
      ] in
      if has_prefix (codes "/_/") path
      then (if site.has_static then static (trim_prefix (codes "/_/") path) else server_error)
      else archive

  unfoldable pub route : Bytes → Bytes → Target
  unfolding route_rest rewrite_accept
  route path accept =
      if not site.has_templates
      then server_error
      else if same path (codes "/")
      then index
      else if same path (codes "/" ++ site.cache_info_name)
      then cache_info
      else if is_nar_info_path nix path
      then nar_info (rewrite_accept accept)
      else route_rest path

-- A store object's name has no slash.
abbrev pub NoSlash : Nix → Type 0
NoSlash nix = (dir entry : Bytes) → contains_byte 47 entry ≡ true → nix.object dir entry ≡ none

contains_byte-append :
    (c : ℕ) (s t : Bytes) → contains_byte c (s ++ t) ≡ (contains_byte c s || contains_byte c t)
unfolding contains_byte
contains_byte-append c [] t = refl
contains_byte-append c (d ∷ s) t = ground (arith, contains_byte-append c s t)

or-left : (a b : Bool) → (a || b) ≡ true → b ≡ false → a ≡ true
or-left a b h k = ground arith

is_digest-slash :
    (nix : Nix) (d : Bytes) → NoSlash nix → contains_byte 47 d ≡ true → is_digest nix d ≡ false
unfolding is_digest
is_digest-slash nix d law h =
    let inside : contains_byte 47 (d ++ codes "-x") ≡ true =
      contains_byte-append 47 d (codes "-x") ∙ rw h refl in
    rw (law nix.default_dir (d ++ codes "-x") inside, is_digest) refl

before_extension-slash :
    (nix : Nix) (tail d : Bytes)
    → contains_byte 47 nix.nar_info_extension ≡ false
    → codes "nar/" ++ tail ≡ d ++ nix.nar_info_extension
    → contains_byte 47 d ≡ true
unfolding contains_byte
before_extension-slash nix tail d ext e =
    or-left (contains_byte 47 d) (contains_byte 47 nix.nar_info_extension)
      (sym (contains_byte-append 47 d nix.nar_info_extension) ∙ ap (contains_byte 47) (sym e)) ext

-- What stands in the directory of archives is no `.narinfo` file.
nar-not_nar_info :
    (nix : Nix) (tail : Bytes)
    → NoSlash nix
    → contains_byte 47 nix.nar_info_extension ≡ false
    → is_nar_info_path nix (codes "/nar/" ++ tail) ≡ false
unfolding is_nar_info_path trim_prefix
nar-not_nar_info nix tail law ext =
    let path = codes "nar/" ++ tail in
    let trimmed : trim_prefix (codes "/") (codes "/nar/" ++ tail) ≡ path =
      unfold cut_prefix in refl in
    elim (Option-cases (cut_suffix nix.nar_info_extension path)) [
      | inl e ↦ rw (trimmed, is_nar_info_path, e) refl
      | inr (d, e) ↦
          rw (trimmed, is_nar_info_path, e)
            (is_digest-slash nix d law (
              before_extension-slash nix tail d ext
                (cut_suffix_sound nix.nar_info_extension path e)))
    ]

not_cache_info :
    (name tail : Bytes)
    → has_prefix (codes "nar/") name ≡ false
    → same (codes "/nar/" ++ tail) (codes "/" ++ name) ≡ false
unfolding same
not_cache_info name tail h = elim (Bool-cases (same (codes "nar/" ++ tail) name)) [
  | inl e ↦ cc (h, has_prefix-append (codes "nar/") tail, same_sound (codes "nar/" ++ tail) name e)
  | inr e ↦ e
]

module _ {A : Type 0} (site : Site A) (nix : Nix) (order : List Compression) where
  route_at :
      (tail accept : Bytes) (found : Bytes × Compression)
      → site.has_templates ≡ true
      → same (codes "/nar/" ++ tail) (codes "/" ++ site.cache_info_name) ≡ false
      → is_nar_info_path nix (codes "/nar/" ++ tail) ≡ false
      → parse_nar_url_path nix order (codes "/nar/" ++ tail) ≡ some found
      → route site nix order (codes "/nar/" ++ tail) accept ≡ nar
  unfolding route same has_prefix
  route_at tail accept found t c i p = rw (t, route, c, i, route_rest, p) refl

  -- Every path that `parseNARURLPath` accepts is given to the handler of archives, whatever the
  -- Accept header: no handler that is tried before takes it. Store object names and the extension of
  -- `.narinfo` files must have no slash, and the cache info file must lie outside of `nar/`.
  pub route-nar :
      NoSlash nix
      → contains_byte 47 nix.nar_info_extension ≡ false
      → has_prefix (codes "nar/") site.cache_info_name ≡ false
      → site.has_templates ≡ true
      → (path accept : Bytes) (found : Bytes × Compression)
      → parse_nar_url_path nix order path ≡ some found
      → route site nix order path accept ≡ nar
  unfolding parse_nar_url_path
  route-nar law ext name templates path accept found p =
      let (tail, cut, rest) = >>=-eq-some (cut_prefix (codes "/nar/") path) _ p in
      let split : path ≡ codes "/nar/" ++ tail = cut_prefix_sound (codes "/nar/") path cut in
      rw split (
        route_at tail accept found templates (not_cache_info site.cache_info_name tail name)
          (nar-not_nar_info nix tail law ext) (rw split at p))
