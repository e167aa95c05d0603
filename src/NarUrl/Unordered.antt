-- ===== src/NarUrl/Unordered.antt =====
-- Go visits the keys of a map in an order that changes from run to run; what `parseNARURLPath`
-- returns does not.
use nixcached.Prelude.{
  ◌≡◌, ◌↔◌, refl, sym, ◌∙◌, fun_ext, List, [], ◌∷◌, some, Option-cases, Bool-cases, some_inj, same,
  inl, inr, Bytes,
}
use nixcached.Nix.{Nix}
use nixcached.Compression.{Compression, compression_extension}
use nixcached.NarUrl.{find_compression, parse_nar_url_path}
use nixcached.NarUrl.RoundTrip.{Visits, find_compression-Visits, find_compression_sound}

-- Two orders of the same keys.
abbrev pub SameKeys : List Compression → List Compression → Type 0
SameKeys order order' = (c : Compression) → Visits c order ↔ Visits c order'

-- Only a key that is visited is found.
find_compression_visited :
    (order : List Compression) (ext : Bytes) (c : Compression)
    → find_compression order ext ≡ some c
    → Visits c order
unfolding find_compression
find_compression_visited [] ext c h = cc h
find_compression_visited (d ∷ order) ext c h = elim (Option-cases (compression_extension d)) [
  | inl o ↦ inr (find_compression_visited order ext c (rw (o, find_compression) at h))
  | inr (x, o) ↦ elim (Bool-cases (same ext x)) [
    | inl y ↦ inl (sym (some_inj (rw (o, find_compression, y) at h)))
    | inr n ↦ inr (find_compression_visited order ext c (rw (o, find_compression, n) at h))
  ]
]

find_compression-SameKeys :
    (order order' : List Compression)
    → SameKeys order order'
    → (ext : Bytes) → find_compression order ext ≡ find_compression order' ext
find_compression-SameKeys order order' s ext = elim (Option-cases (find_compression order ext)) [
  | inr (c, e) ↦
      let x = find_compression_sound order ext e in
      let v = find_compression_visited order ext c e in
      e ∙ sym (find_compression-Visits order' c ext x ((s c).0 v))
  | inl n ↦ elim (Option-cases (find_compression order' ext)) [
    | inl m ↦ n ∙ sym m
    | inr (c, e) ↦
        let x = find_compression_sound order' ext e in
        let v = find_compression_visited order' ext c e in
        let f : find_compression order ext ≡ some c =
          find_compression-Visits order c ext x ((s c).1 v) in
        cc f
  ]
]

-- The digest and the compression that `parseNARURLPath` finds, and whether it finds any, do not
-- depend on the order in which the keys of `compressionExtensions` are visited.
pub parse_nar_url_path-SameKeys :
    (nix : Nix) (order order' : List Compression)
    → SameKeys order order'
    → (path : Bytes) → parse_nar_url_path nix order path ≡ parse_nar_url_path nix order' path
unfolding parse_nar_url_path
parse_nar_url_path-SameKeys nix order order' s path =
    let e : find_compression order ≡ find_compression order' =
      fun_ext (λ ext. find_compression-SameKeys order order' s ext) in
    rw e refl
