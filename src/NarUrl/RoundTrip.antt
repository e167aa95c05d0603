-- ===== src/NarUrl/RoundTrip.antt =====
-- Built URLs are parsed back, and only built URLs are parsed.
use nixcached.Prelude.{
  ℕ, suc, ◌+◌, ◌≡◌, refl, sym, ap, ◌∙◌, Bool, true, false, List, [], ◌∷◌, ◌++◌, Option, none, some,
  arith, if◌then◌else◌, ◌>>=◌, length, take, drop, Bytes, codes, same, same_refl, same_sound,
  has_prefix, cut_prefix, cut_prefix-append, cut_prefix_sound, take_exact, drop_exact, append_assoc,
  ◌⊎◌, inl, inr, Bool-cases, Option-cases, some_inj, >>=-eq-some, length-append,
}
use native.Mathlib.Nat.{zero-add, suc-add}
use nixcached.Nix.{Nix, NarExtension}
use nixcached.Compression.{
  Compression, no_compression, gzip, bzip2, brotli, xz, compression_extension,
}
use nixcached.NarUrl.{last_index, is_digest, find_compression, parse_nar_url_path, build_nar_url}

-- An order in which the five keys of the map may be visited.
abbrev pub Visits : Compression → List Compression → Type 0
Visits c [] = ⊥
Visits c (d ∷ order) = (c ≡ d) ⊎ Visits c order

last_index-append :
    (sub d s : Bytes) (i : ℕ)
    → last_index sub s ≡ some i
    → last_index sub (d ++ s) ≡ some (length d + i)
unfolding last_index
last_index-append sub [] s i h = rw h (ap some (omega arith))
last_index-append sub (c ∷ d) s i h =
    rw (last_index-append sub d s i h, last_index) (ap some (omega arith))

last_index_at :
    (x ext : Bytes)
    → last_index (codes ".nar") (codes ".nar" ++ x) ≡ some 0
    → some x ≡ some ext
    → last_index (codes ".nar") (codes ".nar" ++ ext) ≡ some 0
last_index_at x ext r h = let e : x ≡ ext = cc in rw e at r

-- Behind ".nar" comes no second one.
last_index-extension :
    (c : Compression) (ext : Bytes)
    → compression_extension c ≡ some ext
    → last_index (codes ".nar") (codes ".nar" ++ ext) ≡ some 0
unfolding last_index has_prefix compression_extension
last_index-extension no_compression ext h = last_index_at [] ext refl h
last_index-extension gzip ext h = last_index_at (codes ".gz") ext refl h
last_index-extension bzip2 ext h = last_index_at (codes ".bz2") ext refl h
last_index-extension brotli ext h = last_index_at (codes ".br") ext refl h
last_index-extension xz ext h = last_index_at (codes ".xz") ext refl h
last_index-extension c ext h = cc

compression_extension-injective :
    (c d : Compression) {e : Bytes}
    → compression_extension c ≡ some e
    → compression_extension d ≡ some e
    → c ≡ d
unfolding compression_extension
compression_extension-injective c d h k = ground arith

pub find_compression-Visits :
    (order : List Compression) (c : Compression) (ext : Bytes)
    → compression_extension c ≡ some ext
    → Visits c order
    → find_compression order ext ≡ some c
unfolding find_compression
find_compression-Visits [] c ext h v = absurd v
find_compression-Visits (d ∷ order) c ext h v = elim (Option-cases (compression_extension d)) [
  | inl o ↦ elim v [
    | inl e ↦ cc
    | inr w ↦ rw (o, find_compression) (find_compression-Visits order c ext h w)
  ]
  | inr (x, o) ↦ elim (Bool-cases (same ext x)) [
    | inl y ↦
        rw (o, find_compression, y)
          (ap some (compression_extension-injective d c o (rw (same_sound ext x y) at h)))
    | inr n ↦ elim v [
      | inl e ↦ let xe : x ≡ ext = cc in let t : same ext x ≡ true = rw xe (same_refl ext) in cc
      | inr w ↦ rw (o, find_compression, n) (find_compression-Visits order c ext h w)
    ]
  ]
]

pub find_compression_sound :
    (order : List Compression) (ext : Bytes) {c : Compression}
    → find_compression order ext ≡ some c
    → compression_extension c ≡ some ext
unfolding find_compression
find_compression_sound [] ext h = cc
find_compression_sound (d ∷ order) ext {c} h = elim (Option-cases (compression_extension d)) [
  | inl o ↦ find_compression_sound order ext (rw (o, find_compression) at h)
  | inr (x, o) ↦ elim (Bool-cases (same ext x)) [
    | inl y ↦
        let e : d ≡ c = some_inj (rw (o, find_compression, y) at h) in
        rw (← e, same_sound ext x y) o
    | inr n ↦ find_compression_sound order ext (rw (o, find_compression, n) at h)
  ]
]

has_prefix_split : (p s : Bytes) → has_prefix p s ≡ true → p ++ drop (length p) s ≡ s
unfolding has_prefix
has_prefix_split [] s h = refl
has_prefix_split (c ∷ p) [] h = cc
has_prefix_split (c ∷ p) (d ∷ s) h = ground (arith, has_prefix_split p s)

last_index_sound :
    (sub s : Bytes) {i : ℕ}
    → last_index sub s ≡ some i
    → take i s ++ (sub ++ drop (i + length sub) s) ≡ s
unfolding last_index
last_index_sound sub [] {i} h = elim (Bool-cases (has_prefix sub [])) [
  | inl y ↦ let e : 0 ≡ i = some_inj (rw y at h) in rw (← e, zero-add) (has_prefix_split sub [] y)
  | inr n ↦ let e : none ≡ some i = rw n at h in cc
]
last_index_sound sub (c ∷ s) {i} h = elim (Option-cases (last_index sub s)) [
  | inr (j, o) ↦
      let e : suc j ≡ i = some_inj (rw (o, last_index) at h) in
      rw (← e, suc-add) (ap (λ t. c ∷ t) (last_index_sound sub s o))
  | inl o ↦ elim (Bool-cases (has_prefix sub (c ∷ s))) [
    | inl y ↦
        let e : 0 ≡ i = some_inj (rw (o, last_index, y) at h) in
        rw (← e, zero-add) (has_prefix_split sub (c ∷ s) y)
    | inr n ↦ let e : none ≡ some i = rw (o, last_index, n) at h in cc
  ]
]

abbrev with_digest : Bytes → Option Compression → Option (Bytes × Compression)
with_digest front found = found >>= λ c. some (front, c)

module _ (nix : Nix) (order : List Compression) where
  parse_built :
      NarExtension nix
      → (digest ext : Bytes) (c : Compression) → is_digest nix digest ≡ true
      → Visits c order
      → compression_extension c ≡ some ext
      → parse_nar_url_path nix order (codes "/nar/" ++ (digest ++ (nix.nar_extension ++ ext)))
        ≡ some (digest, c)
  unfolding parse_nar_url_path
  parse_built law digest ext c valid v o =
      let tail = digest ++ (nix.nar_extension ++ ext) in
      let n = length digest + 0 in
      let last : last_index nix.nar_extension tail ≡ some n =
        last_index-append nix.nar_extension digest (nix.nar_extension ++ ext) 0
          (rw law (last_index-extension c ext o)) in
      let front : take n tail ≡ digest =
        take_exact digest (nix.nar_extension ++ ext) n (omega arith) in
      let back : drop (n + length nix.nar_extension) tail ≡ ext =
        rw (← append_assoc digest nix.nar_extension ext) (
          drop_exact (digest ++ nix.nar_extension) ext _
            (omega (arith, length-append digest nix.nar_extension))) in
      rw (
        cut_prefix-append (codes "/nar/") tail,
        last,
        front,
        back,
        valid,
        find_compression-Visits order c ext o v,
      )

  -- A URL that `buildNARURL` makes of a digest is parsed back to that digest and compression,
  -- in whatever order the extensions are tried, if all of them are.
  pub parse_nar_url_path-build_nar_url :
      NarExtension nix
      → (digest : Bytes) (c : Compression) (url : Bytes) → is_digest nix digest ≡ true
      → Visits c order
      → build_nar_url nix digest c ≡ some url
      → parse_nar_url_path nix order (codes "/" ++ url) ≡ some (digest, c)
  unfolding build_nar_url
  parse_nar_url_path-build_nar_url law digest c url valid v built =
      let (ext, o, e) = >>=-eq-some (compression_extension c) _ built in
      rw (← some_inj e) (parse_built law digest ext c valid v o)

  -- What the last step of the parser returns, with its three answers as variables.
  accepted :
      (valid : Bool) (found : Option Compression) (front digest : Bytes) (c : Compression)
      → (if valid then with_digest front found else none) ≡ some (digest, c)
      → (valid ≡ true) × (found ≡ some c) × (front ≡ digest)
  accepted true (some d) front digest c h = (
    refl,
    ap (λ (t : Bytes × Compression). some t.1) (some_inj h),
    ap (λ (t : Bytes × Compression). t.0) (some_inj h),
  )
  accepted true none front digest c h = cc h
  accepted false found front digest c h = cc h

  parsed_tail :
      (tail : Bytes) (i : ℕ) (digest : Bytes) (c : Compression)
      → last_index nix.nar_extension tail ≡ some i
      → (if is_digest nix (take i tail)
          then with_digest
              (take i tail)
              (find_compression order (drop (i + length nix.nar_extension) tail))
          else none)
        ≡ some (digest, c)
      → (is_digest nix digest ≡ true)
        × (ext : Bytes) × (compression_extension c ≡ some ext)
        × (digest ++ (nix.nar_extension ++ ext) ≡ tail)
  parsed_tail tail i digest c last h =
      let ext = drop (i + length nix.nar_extension) tail in
      let (valid, found, front) = accepted _ _ (take i tail) digest c h in
      (
        rw front at valid,
        ext,
        find_compression_sound order ext found,
        rw front at (last_index_sound nix.nar_extension tail last),
      )

  -- A path that `parseNARURLPath` accepts is the URL that `buildNARURL` makes of the result,
  -- behind a slash, and the digest passed the test.
  pub parse_nar_url_path_sound :
      (path digest : Bytes) (c : Compression)
      → parse_nar_url_path nix order path ≡ some (digest, c)
      → (is_digest nix digest ≡ true)
        × (url : Bytes) × (build_nar_url nix digest c ≡ some url)
        × (path ≡ codes "/" ++ url)
  unfolding build_nar_url parse_nar_url_path
  parse_nar_url_path_sound path digest c h =
      let (tail, cut, h₁) = >>=-eq-some (cut_prefix (codes "/nar/") path) _ h in
      let (i, last, h₂) = >>=-eq-some (last_index nix.nar_extension tail) _ h₁ in
      let (valid, ext, o, e) = parsed_tail tail i digest c last h₂ in
      (
        valid,
        codes "nar/" ++ (digest ++ (nix.nar_extension ++ ext)),
        rw o,
        cut_prefix_sound (codes "/nar/") path cut ∙ ap (λ t. codes "/nar/" ++ t) (sym e),
      )
