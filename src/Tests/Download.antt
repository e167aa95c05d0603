-- ===== src/Tests/Download.antt =====
-- Examples of keys and downloads.
use nixcached.Prelude.{
  ℕ, ◌≡◌, refl, true, false, ◌≢◌, List, [], ◌∷◌, ◌++◌, Option, none, some, inr, ◌⊎◌, All, Bytes,
  codes, same, has_prefix, contains_byte, cut_prefix, cut_prefix-append, concat,
}
use nixcached.Compression.{compression_extension}
use nixcached.HashPart.{query_path, find_object, at_least, run_length, narrow}
use nixcached.NarUrl.{is_digest}
use nixcached.Upload.{NarInfo, not_found, dump, upload_store_path}
use nixcached.Upload.Bucket.{visible}
use nixcached.Serve.{Download, complete}
use nixcached.Shell.Reader.{words}
use nixcached.Stores.Commands.{
  Process, new_local_command, new_ssh_command, value_in, new_local_command-new_ssh_command,
}
use nixcached.Stores.{
  Cli, Origin, on_this_machine, behind_ssh, answer, sort_digests, batch_nar_info_from_cli,
  batch_nar_info, ssh_result, ssh_nar_info, local_nar_info, query_chunks, single_result,
  path_info_from_cli, parse_output, set_info_url, info_of,
}
use nixcached.Urls.{
  Url, put_byte, elements, go_up, push, push_all, rooted_path, clean_rooted, clean,
}
use nixcached.Urls.Elements.{IsPlain}
use nixcached.Urls.Bucket.{BucketUrl, url_key, bucket_path, open_bucket}
use nixcached.Urls.Bucket.Keys.{IsOpen, IsServed, open_bucket-IsOpen, url_key-stays}
use nixcached.Download.{
  Ssh, ssh_destination, remote_url, local_url, dir_or_default, dump_path_args, ssh_download,
  bucket_download,
}
use nixcached.Download.Uploaded.{blobs_of, bucket_download-upload_store_path}
use nixcached.Download.Served.{IsStorePath, followed, ssh_download-ssh_nar_info}
use nixcached.Tests.Small.{tiny}
use nixcached.Tests.Bucket.{reported, world, plain_options, dumped, empty_bucket}
use nixcached.Tests.Stores.{command, directory, elem}

abbrev cache : Bytes → Url
cache path = record {
  scheme = codes "gs";
  opaque = [];
  host = codes "b";
  path = path;
  raw_query = [];
  fragment = [];
}

abbrev bucket : BucketUrl
bucket = record { scheme = codes "gs"; host = codes "b"; path = codes "/sub" }

-- The path is cleaned on the way.
bucket-opened :
    open_bucket (λ text. some (cache text)) (λ u. true) (codes "x/..//sub/") ≡ some bucket
unfolding open_bucket bucket_path clean elements put_byte push_all push go_up same clean_rooted
    rooted_path
bucket-opened = refl

abbrev bucket-IsOpen : IsOpen bucket
bucket-IsOpen =
    open_bucket-IsOpen (λ text. some (cache text)) (λ u. true) (codes "x/..//sub/") bucket
      bucket-opened

url_key-dots : url_key bucket (cache (codes "/sub/../sub/nar//x")) ≡ some (codes "nar/x")
unfolding url_key clean elements put_byte push_all push go_up same clean_rooted rooted_path
    cut_prefix
url_key-dots = refl

url_key-above : url_key bucket (cache (codes "/sub/../nar/x")) ≡ none
unfolding url_key clean elements put_byte push_all push go_up same clean_rooted rooted_path
    cut_prefix
url_key-above = refl

url_key-stays_example :
    IsServed bucket (cache (codes "/sub/../sub/nar//x"))
    × (clean (codes "/sub/../sub/nar//x") ≡ codes "/sub" ++ (codes "/" ++ codes "nar/x"))
    × ((codes "nar/x" ≡ []) ⊎ All IsPlain (elements (codes "nar/x")))
url_key-stays_example =
    url_key-stays bucket (cache (codes "/sub/../sub/nar//x")) (codes "nar/x") bucket-IsOpen
      url_key-dots

served : (path : Bytes) → IsServed bucket (cache path)
served path = record {
  scheme = refl;
  host = refl;
  opaque = refl;
  fragment = refl;
  raw_query = refl;
}

nar_x-IsPlain : All IsPlain (elements (codes "nar/zNAR.nar.gz"))
unfolding elements put_byte same contains_byte
nar_x-IsPlain = (
  record { filled = refl; here = refl; up = refl; whole = refl },
  (record { filled = refl; here = refl; up = refl; whole = refl }, tt),
)

bucket_download-upload_store_path_example :
    bucket_download {E = ℕ}
      (blobs_of
        (visible (upload_store_path (world not_found) reported plain_options []).1 empty_bucket))
      bucket
      (cache (codes "/sub/nar/zNAR.nar.gz"))
    ≡ complete (codes "zNAR")
unfolding has_prefix dump compression_extension same
bucket_download-upload_store_path_example =
    bucket_download-upload_store_path (world not_found) (λ h key content mime. refl) dumped reported
      plain_options (codes "nar/zNAR.nar.gzNAR") [] empty_bucket bucket
      (cache (codes "/sub/nar/zNAR.nar.gz")) refl refl refl refl refl refl (inr refl) refl refl
      bucket-IsOpen (served _) refl nar_x-IsPlain

abbrev remote : Ssh
remote = record {
  host = codes "h";
  username = [];
  directory = [];
  ssh_executable = [];
  executable = [];
}

-- The program's own environment has another store directory.
abbrev environment : List Bytes
environment = codes "HOME=/" ∷ codes "NIX_STORE_DIR=/mnt" ∷ []

abbrev local_process : Process
local_process =
    new_local_command tiny (record { directory = []; executable = [] }) environment
      (codes "path-info" ∷ [])

new_local_command-new_ssh_command_example :
    (dir text : Bytes) × (value_in (codes "NIX_STORE_DIR") local_process.env ≡ some dir)
    × ((new_ssh_command tiny (λ h. h) (λ h. []) remote environment (codes "path-info" ∷ [])).args
        ≡ codes "--" ∷ ssh_destination (λ h. h) (λ h. []) remote ∷ text ∷ [])
    × (words text
        ≡ some ((codes "NIX_STORE_DIR=" ++ dir) ∷ local_process.path ∷ local_process.args))
    × ((name : Bytes)
        → contains_byte 61 name ≡ false
        → name ≢ codes "NIX_STORE_DIR"
        → value_in name local_process.env ≡ value_in name environment)
new_local_command-new_ssh_command_example =
    new_local_command-new_ssh_command tiny (λ h. h) (λ h. [])
      (record { directory = []; executable = [] }) remote environment (codes "path-info" ∷ []) refl
      refl

-- The URLs of a store, and their parser.
abbrev linked : Bytes → Origin → Cli
linked prefix origin = record command {
  parse_object = λ out. some ((codes "/ab-y", some elem) ∷ []);
  origin = origin;
  print_url = λ user u. prefix ++ u.path;
}

abbrev parsed_by : Bytes → (Bytes → Url) → Bytes → Option Url
parsed_by origin make text = elim (cut_prefix origin text) [ none ↦ none | some p ↦ some (make p) ]

parsed :
    (origin : Bytes) (make : Bytes → Url) (p : Bytes)
    → parsed_by origin make (origin ++ p) ≡ some (make p)
parsed origin make p = rw (parsed_by, cut_prefix-append origin p) refl

abbrev found_info : Bytes → Origin → NarInfo
found_info prefix origin = set_info_url (linked prefix origin) (info_of (codes "/ab-y") elem)

abbrev runs : List Bytes → Download
runs args = complete (codes "ran")

ab_y : IsStorePath tiny (codes "/nix/store") (codes "/ab-y")
unfolding has_prefix
ab_y = record { filled = refl; absolute = refl; parsed = refl }

ssh_answers :
    ssh_nar_info
      (linked (codes "ssh://h") (behind_ssh remote))
      tiny
      (codes "/nix/store")
      (some (concat directory))
      (codes "ab")
    ≡ answer (found_info (codes "ssh://h") (behind_ssh remote))
unfolding ssh_nar_info ssh_result batch_nar_info sort_digests batch_nar_info_from_cli query_path
    find_object at_least run_length narrow path_info_from_cli parse_output same contains_byte
    info_of has_prefix set_info_url remote_url
ssh_answers = refl

ssh_download-ssh_nar_info_example :
    followed
      (parsed_by (codes "ssh://h") (remote_url remote))
      (ssh_download tiny remote runs)
      (found_info (codes "ssh://h") (behind_ssh remote)).url
    ≡ runs (dump_path_args (codes "/ab-y"))
unfolding dir_or_default set_info_url info_of remote_url
ssh_download-ssh_nar_info_example =
    ssh_download-ssh_nar_info (linked (codes "ssh://h") (behind_ssh remote)) tiny remote runs
      (parsed_by (codes "ssh://h") (remote_url remote)) (some (concat directory)) (codes "ab")
      (found_info (codes "ssh://h") (behind_ssh remote)) refl
      (λ p absolute. parsed (codes "ssh://h") (remote_url remote) p) ab_y ssh_answers

local_answers :
    local_nar_info
      (linked (codes "file://") on_this_machine)
      tiny
      (codes "/nix/store")
      directory
      (codes "ab")
    ≡ answer (found_info (codes "file://") on_this_machine)
unfolding local_nar_info is_digest query_chunks query_path find_object path_info_from_cli
    parse_output single_result same contains_byte info_of set_info_url local_url
local_answers = refl
