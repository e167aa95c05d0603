-- ===== src/Nix.antt =====
-- What the program uses of the module zombiezen.com/go/nix, which is not part of the repository:
-- a parameter of the model, with the documented behaviour that proofs rely on.
use nixcached.Prelude.{◌≡◌, Bool, true, Option, some, Bytes, codes, has_prefix}

-- A `nix.StorePath` is its text, and so is a `nix.StoreDirectory`.
abbrev pub StorePath : Type 0
StorePath = Bytes

pub record Nix : Type 0 where
  -- `nix.DefaultStoreDirectory`
  pub default_dir : Bytes
  -- `nix.NARInfoExtension` and `nar.Extension`
  pub nar_info_extension : Bytes
  pub nar_extension : Bytes
  -- `StoreDirectory.Object`, with `none` for an error
  pub object : Bytes → Bytes → Option StorePath
  -- `StoreDirectory.ParsePath`: the store path and the subpath
  pub parse_path : Bytes → Bytes → Option (StorePath × Bytes)
  -- `StorePath.Digest`, `StorePath.Name`, `StorePath.IsDerivation`
  pub digest : StorePath → Bytes
  pub name : StorePath → Bytes
  pub is_derivation : StorePath → Bool

-- The name of a store object is its digest, a dash and its own name.
abbrev pub DigestFirst : Nix → Type 0
DigestFirst nix =
    (dir entry : Bytes) (p : StorePath)
    → nix.object dir entry ≡ some p
    → has_prefix (nix.digest p) entry ≡ true

-- The file name extension of NAR files.
abbrev pub NarExtension : Nix → Type 0
NarExtension nix = nix.nar_extension ≡ codes ".nar"
