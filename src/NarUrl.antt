-- ===== src/NarUrl.antt =====
-- The URLs under which the server offers NAR files (serve.go): `buildNARURL`, `parseNARURLPath`
-- and `isNARInfoPath`.
pub mod RoundTrip
pub mod Unordered
use nixcached.Prelude.{
  ℕ, zero, suc, ◌+◌, ◌≡◌, refl, Bool, true, false, ◌&&◌, List, [], ◌∷◌, ◌++◌, Option, none, some,
  if◌then◌else◌, ◌>>=◌, length, take, drop, Bytes, codes, same, has_prefix, cut_prefix, cut_suffix,
}
use nixcached.Nix.{Nix}
use nixcached.Compression.{
  Compression, no_compression, gzip, bzip2, brotli, xz, compression_extension,
}

-- `strings.LastIndex(s, sub)`, with `none` for -1.
unfoldable pub last_index : Bytes → Bytes → Option ℕ
last_index sub [] = if has_prefix sub [] then some 0 else none
last_index sub (c ∷ s) = elim (last_index sub s) [
  | some i ↦ some (suc i)
  | none ↦ if has_prefix sub (c ∷ s) then some 0 else none
]

-- `strings.TrimPrefix`
unfoldable pub trim_prefix : Bytes → Bytes → Bytes
trim_prefix prefix s = elim (cut_prefix prefix s) [ none ↦ s | some r ↦ r ]

-- The test by which a digest is told from other texts: an object name made from it has it back.
unfoldable pub is_digest : Nix → Bytes → Bool
is_digest nix digest = elim (nix.object nix.default_dir (digest ++ codes "-x")) [
  | none ↦ false
  | some p ↦ same (nix.digest p) digest && same (nix.name p) (codes "x")
]

unfoldable pub is_nar_info_path : Nix → Bytes → Bool
unfolding trim_prefix is_digest
is_nar_info_path nix path =
    elim (cut_suffix nix.nar_info_extension (trim_prefix (codes "/") path)) [
      | none ↦ false
      | some digest ↦ is_digest nix digest
    ]

-- The loop over `compressionExtensions`. Go visits the keys of a map in an unspecified order, so
-- the order is an argument.
unfoldable pub find_compression : List Compression → Bytes → Option Compression
find_compression [] ext = none
find_compression (c ∷ order) ext =
    let rest = find_compression order ext in
    elim (compression_extension c) [
      | none ↦ rest
      | some cext ↦ if same ext cext then some c else rest
    ]

unfoldable pub parse_nar_url_path : Nix → List Compression → Bytes → Option (Bytes × Compression)
unfolding last_index is_digest find_compression
parse_nar_url_path nix order path = do
  tail ← cut_prefix (codes "/nar/") path
  i ← last_index nix.nar_extension tail
  let digest = take i tail
  let ext = drop (i + length nix.nar_extension) tail
  if is_digest nix digest then (find_compression order ext >>= λ c. some (digest, c)) else none

unfoldable pub build_nar_url : Nix → Bytes → Compression → Option Bytes
build_nar_url nix digest compression = do
  ext ← compression_extension compression
  some (codes "nar/" ++ (digest ++ (nix.nar_extension ++ ext)))
