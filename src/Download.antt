-- ===== src/Download.antt =====
-- `Download` of the three stores of internal/nixstore (bucket.go, local.go, ssh.go), with the settings
-- of a store behind ssh. The bucket, the decoders and the processes are parameters.
pub mod Uploaded
pub mod Served
use nixcached.Prelude.{
  Bool, true, false, ◌&&◌, ◌||◌, not, List, [], ◌∷◌, ◌++◌, Option, none, some, if◌then◌else◌,
  is_empty, Bytes, codes, same, contains_byte,
}
use nixcached.Nix.{Nix, StorePath}
use nixcached.Upload.{ReadResult, found, not_found, read_failed}
use nixcached.Serve.{Download, complete, gone, broken}
use nixcached.Urls.{Url}
use nixcached.Urls.Bucket.{BucketUrl, url_key}

-- The bucket and the decoders. A decoder may fail at the start, or after some bytes.
pub record Blobs (E : Type 0) : Type 0 where
  -- the Content-Encoding of an object
  pub attributes : Bytes → ReadResult E
  pub download : Bytes → Download
  pub read : Bytes → ReadResult E
  pub gunzip : Bytes → Option (Bytes × Bool)
  pub unbrotli : Bytes → Option (Bytes × Bool)
  pub unmarshal_cache_info : Bytes → Option Bytes

-- What `io.Copy` writes of a decoder's output.
unfoldable pub copied : Option (Bytes × Bool) → Download
copied none = broken []
copied (some (out, ended)) = if ended then complete out else broken out

unfoldable pub decoded : {E : Type 0} → (Bytes → Option (Bytes × Bool)) → ReadResult E → Download
unfolding copied
decoded decode not_found = gone []
decoded decode (read_failed e) = broken []
decoded decode (found content) = copied (decode content)

module _ {E : Type 0} (blobs : Blobs E) where
  -- The object under a key with this Content-Encoding.
  unfoldable pub send_encoded : Bytes → Bytes → Download
  unfolding decoded
  send_encoded key encoding =
      if is_empty encoding
      then blobs.download key
      else if same encoding (codes "gzip")
      then decoded blobs.gunzip (blobs.read key)
      else if same encoding (codes "br")
      then decoded blobs.unbrotli (blobs.read key)
      else broken []

  -- `(*Bucket).Download`
  unfoldable pub bucket_download : BucketUrl → Url → Download
  bucket_download b u = elim (url_key b u) [
    | none ↦ gone []
    | some key ↦ elim (blobs.attributes key) [
      | not_found ↦ gone []
      | read_failed e ↦ broken []
      | found encoding ↦ send_encoded key encoding
    ]
  ]

  -- `(*Bucket).CacheInfo`: the store directory, or none for an error.
  unfoldable pub bucket_cache_info : Nix → Bytes → Option Bytes
  bucket_cache_info nix name = elim (blobs.read name) [
    | not_found ↦ some nix.default_dir
    | read_failed e ↦ none
    | found text ↦ blobs.unmarshal_cache_info text
  ]

-- The path of a URL is a store path, and no more.
unfoldable pub whole_path : Nix → Bytes → Bytes → Option StorePath
whole_path nix dir path = elim (nix.parse_path dir path) [
  | none ↦ none
  | some (p, []) ↦ some p
  | some (p, c ∷ sub) ↦ none
]

-- `(*Local).Download`; `dump` is `nar.DumpPath`.
unfoldable pub local_download : Nix → Bytes → (StorePath → Download) → Url → Download
unfolding whole_path
local_download nix dir dump u =
    let asked : Download = elim (whole_path nix dir u.path) [ none ↦ gone [] | some p ↦ dump p ] in
    if not (same u.scheme (codes "file"))
      || not (is_empty u.opaque)
      || not (is_empty u.host || same u.host (codes "localhost"))
      || not (is_empty u.fragment)
      || not (is_empty u.raw_query)
      || is_empty u.path
    then gone []
    else asked

-- A store behind ssh (`SSH`). Its URLs are those of its host.
pub record Ssh : Type 0 where
  pub host : Bytes
  pub username : Bytes
  pub directory : Bytes
  pub ssh_executable : Bytes
  pub executable : Bytes

-- `sshExe`, which asks for the other program's name.
unfoldable pub ssh_exe : Ssh → Bytes
ssh_exe s = if is_empty s.executable then codes "ssh" else s.ssh_executable

unfoldable pub exe : Ssh → Bytes
exe s = if is_empty s.executable then codes "nix" else s.executable

-- `dir`, also of the local store.
unfoldable pub dir_or_default : Nix → Bytes → Bytes
dir_or_default nix directory = if is_empty directory then nix.default_dir else directory

-- `remoteURL`, without the user, which `Download` does not compare.
unfoldable pub remote_url : Ssh → Bytes → Url
remote_url s path = record {
  scheme = codes "ssh";
  opaque = [];
  host = s.host;
  path = path;
  raw_query = [];
  fragment = [];
}

-- The URL of `(*Local).setInfoURL`.
unfoldable pub local_url : StorePath → Url
local_url p = record {
  scheme = codes "file";
  opaque = [];
  host = [];
  path = p;
  raw_query = [];
  fragment = [];
}

-- `sshDestination`, where a host in brackets is taken apart by net/url.
unfoldable pub ssh_destination : (Bytes → Bytes) → (Bytes → Bytes) → Ssh → Bytes
ssh_destination hostname port s =
    let has_brackets = contains_byte 91 s.host || contains_byte 93 s.host in
    let user = if is_empty s.username then [] else s.username ++ codes "@" in
    let host =
      if has_brackets
      then hostname s.host ++ (if is_empty (port s.host) then [] else codes ":" ++ port s.host)
      else s.host in
    if not has_brackets && is_empty s.username then s.host else user ++ host

-- The arguments of the remote command of `(*SSH).Download`.
abbrev pub dump_path_args : StorePath → List Bytes
dump_path_args p =
    codes "--extra-experimental-features"
    ∷ codes "nix-command"
    ∷ codes "nar"
    ∷ codes "dump-path"
    ∷ codes "--"
    ∷ p
    ∷ []

-- `(*SSH).Download`; `run` is the remote nix command.
unfoldable pub ssh_download : Nix → Ssh → (List Bytes → Download) → Url → Download
unfolding whole_path remote_url dir_or_default
ssh_download nix s run u =
    let want = remote_url s [] in
    let asked : Download = elim (whole_path nix (dir_or_default nix s.directory) u.path) [
      | none ↦ gone []
      | some p ↦ run (dump_path_args p)
    ] in
    if not (same u.scheme want.scheme)
      || not (is_empty u.opaque)
      || not (same u.host want.host)
      || not (is_empty u.fragment)
      || not (is_empty u.raw_query)
      || is_empty u.path
    then gone []
    else asked
