-- ===== src/Stores.antt =====
-- How the stores of internal/nixstore look infos up: the answers of the nix command and the local
-- store (local.go), the store behind ssh (ssh.go) and the bucket (bucket.go). The nix command, the
-- JSON parser, the file system and the printing of URLs are parameters.
pub mod Agree
pub mod SshList
pub mod Commands
pub mod Uploaded
use nixcached.Prelude.{
  ℕ, ℤ, pos, Bool, true, false, not, List, [], ◌∷◌, ◌++◌, Option, none, some, ◌==◌, if◌then◌else◌,
  map, keep, is_empty, Bytes, codes,
}
use nixcached.Nix.{Nix, StorePath}
use nixcached.Compression.{no_compression}
use nixcached.HashPart.{query_path}
use nixcached.NarUrl.{is_digest}
use nixcached.Urls.{Url}
use nixcached.Download.{Ssh, local_url, remote_url}
use nixcached.Upload.{NarInfo, Hash, ReadResult, found, not_found, read_failed}

-- `pathInfo`, the JSON of `nix path-info`.
pub record PathInfo : Type 0 where
  pub deriver : StorePath
  pub nar_hash : Hash
  pub nar_size : ℕ
  pub path : StorePath
  pub references : List StorePath
  pub signatures : List Bytes
  pub ca : Bytes

-- The receiver of `setInfoURL`.
pub data Origin : Type 0 where
  on_this_machine : Origin
  behind_ssh : Ssh → Origin

pub record Cli : Type 0 where
  -- the output of the nix command for these arguments, with `none` for an error
  pub run : List Bytes → Option Bytes
  -- the JSON object and the JSON array; Go visits an object's fields in an unspecified order
  pub parse_object : Bytes → Option (List (StorePath × Option PathInfo))
  pub parse_array : Bytes → Option (List PathInfo)
  -- the store whose infos these are, and `URL.String` of a URL with this user
  pub origin : Origin
  pub print_url : Bytes → Url → Bytes

-- An info, `ErrNotFound`, or another error.
pub data Answer : Type 0 where
  answer : NarInfo → Answer
  no_such_object : Answer
  error : Answer

unfoldable pub info_of : StorePath → PathInfo → NarInfo
info_of path elem = record {
  store_path = path;
  url = [];
  compression = no_compression;
  file_hash = elem.nar_hash;
  file_size = pos elem.nar_size;
  nar_hash = elem.nar_hash;
  nar_size = elem.nar_size;
  references = elem.references;
  deriver = elem.deriver;
  sig = elem.signatures;
  ca = elem.ca;
}

-- The info for a path that nix knows and that is not in the store.
unfoldable pub bare_info : StorePath → NarInfo
bare_info path = record {
  store_path = path;
  url = [];
  compression = no_compression;
  file_hash = [];
  file_size = pos 0;
  nar_hash = [];
  nar_size = 0;
  references = [];
  deriver = [];
  sig = [];
  ca = [];
}

unfoldable pub info_of_field : StorePath × Option PathInfo → NarInfo
info_of_field (path, none) = bare_info path
info_of_field (path, some elem) = info_of path elem

abbrev pub has_hash : NarInfo → Bool
has_hash info = not (is_empty info.nar_hash)

module _ (cli : Cli) where
  -- The output of `nix path-info --json`, told by its first byte.
  unfoldable pub parse_output : Bytes → Option (List NarInfo)
  unfolding info_of_field
  parse_output [] = none
  parse_output (c ∷ out) =
      let object : Option (List NarInfo) = elim (cli.parse_object (c ∷ out)) [
        | none ↦ none
        | some fields ↦ some (map info_of_field fields)
      ] in
      let array : Option (List NarInfo) = elim (cli.parse_array (c ∷ out)) [
        | none ↦ none
        | some elems ↦ some (map (λ (e : PathInfo). info_of e.path e) elems)
      ] in
      if c == 123 then object else if c == 91 then array else none

  abbrev pub path_info_args : Bool → Bool → List Bytes → List Bytes
  path_info_args derivation recursive installables =
      (codes "--extra-experimental-features"
        ∷ codes "nix-command"
        ∷ codes "path-info"
        ∷ codes "--json"
        ∷ [])
      ++ ((if derivation then codes "--derivation" ∷ [] else [])
          ++ ((if recursive then codes "--recursive" ∷ [] else []) ++ codes "--" ∷ installables))

  unfoldable pub path_info_from_cli : Bool → Bool → List Bytes → Option (List NarInfo)
  path_info_from_cli derivation recursive [] = some []
  path_info_from_cli derivation recursive (x ∷ installables) =
      elim (cli.run (path_info_args derivation recursive (x ∷ installables))) [
        | none ↦ none
        | some out ↦ parse_output out
      ]

  unfoldable pub batch_nar_info_from_cli : List Bytes → List Bytes → Option (List NarInfo)
  batch_nar_info_from_cli outputs derivations = elim (path_info_from_cli false false outputs) [
    | none ↦ none
    | some output_infos ↦ elim (path_info_from_cli true false derivations) [
      | none ↦ none
      | some derivation_infos ↦ some (keep has_hash output_infos ++ keep has_hash derivation_infos)
    ]
  ]

  -- `setInfoURL` of both stores
  abbrev pub url_of : StorePath → Bytes
  url_of path = elim cli.origin [
    | on_this_machine ↦ cli.print_url [] (local_url path)
    | behind_ssh s ↦ cli.print_url s.username (remote_url s path)
  ]

  unfoldable pub set_info_url : NarInfo → NarInfo
  set_info_url info = record info { url = url_of info.store_path }

  module _ (nix : Nix) (dir : Bytes) where
    -- The loop of `BatchNARInfo` that sorts the digests' paths into outputs and derivations.
    unfoldable pub sort_digests : List Bytes → List Bytes → List StorePath × List StorePath
    sort_digests entries [] = ([], [])
    sort_digests entries (digest ∷ digests) =
        let (outputs, derivations) = sort_digests entries digests in
        elim (query_path nix dir entries true digest) [
          | none ↦ (outputs, derivations)
          | some p ↦
              if nix.is_derivation p then (outputs, p ∷ derivations) else (p ∷ outputs, derivations)
        ]

    -- `BatchNARInfo`, from a listing that may have failed.
    unfoldable pub batch_nar_info : Option (List Bytes) → List Bytes → Option (List NarInfo)
    batch_nar_info none digests = none
    batch_nar_info (some entries) digests =
        let (outputs, derivations) = sort_digests entries digests in
        elim (batch_nar_info_from_cli outputs derivations) [
          | none ↦ none
          | some infos ↦ some (map set_info_url infos)
        ]

    -- `(*SSH).BatchNARInfo`, which does the same with its own listing.
    abbrev pub ssh_batch_nar_info : Option (List Bytes) → List Bytes → Option (List NarInfo)
    ssh_batch_nar_info listing digests = batch_nar_info listing digests

    -- `(*SSH).NARInfo`
    unfoldable pub ssh_result : Option (List NarInfo) → Answer
    ssh_result none = error
    ssh_result (some []) = no_such_object
    ssh_result (some (info ∷ [])) = if has_hash info then answer info else no_such_object
    ssh_result (some (info ∷ more ∷ infos)) = error

    unfoldable pub ssh_nar_info : Option (List Bytes) → Bytes → Answer
    ssh_nar_info listing digest = ssh_result (ssh_batch_nar_info listing (digest ∷ []))

    -- `(*Local).queryPathFromHashPart`: the directory is read in chunks, up to its end or an error,
    -- both of which the caller takes for a store object that does not exist.
    unfoldable pub query_chunks : List (List Bytes) → Bytes → Option StorePath
    query_chunks [] digest = none
    query_chunks (entries ∷ chunks) digest =
        let rest = query_chunks chunks digest in
        elim (query_path nix dir entries false digest) [ none ↦ rest | some p ↦ some p ]

    -- `(*Local).NARInfo`
    unfoldable pub single_result : Option (List NarInfo) → Answer
    single_result none = error
    single_result (some []) = no_such_object
    single_result (some (info ∷ [])) =
        if has_hash info then answer (set_info_url info) else no_such_object
    single_result (some (info ∷ more ∷ infos)) = error

    unfoldable pub local_nar_info : List (List Bytes) → Bytes → Answer
    local_nar_info chunks digest =
        let asked : Answer = elim (query_chunks chunks digest) [
          | none ↦ no_such_object
          | some p ↦ single_result (path_info_from_cli (nix.is_derivation p) false (p ∷ []))
        ] in
        if is_digest nix digest then asked else error

-- `(*Bucket).NARInfo`, for URLs of type `U`: the info's own URL is resolved against that of the file.
unfoldable pub bucket_nar_info :
    {E U : Type 0}
    → Nix
    → (Bytes → ReadResult E)
    → (Bytes → Option NarInfo)
    → (Bytes → Option U)
    → (Bytes → U → Bytes)
    → Bytes
    → Answer
bucket_nar_info nix read_all unmarshal_text parse_url resolve digest =
    let key = digest ++ nix.nar_info_extension in
    let asked : Answer = elim (read_all key) [
      | not_found ↦ no_such_object
      | read_failed e ↦ error
      | found text ↦ elim (unmarshal_text text) [
        | none ↦ error
        | some info ↦ elim (parse_url info.url) [
          | none ↦ error
          | some u ↦ answer (record info { url = resolve key u })
        ]
      ]
    ] in
    if is_digest nix digest then asked else error
