-- ===== src/Tests/Stores.antt =====
-- Examples of lookups in the stores.
use nixcached.Prelude.{
  ℕ, pos, ◌≡◌, refl, List, [], ◌∷◌, ◌++◌, none, some, inr, Bytes, codes, same, has_prefix,
  contains_byte, Bool, true, false, count,
}
use nixcached.Compression.{gzip, compression_extension}
use nixcached.HashPart.{bytes_le, query_path}
use nixcached.NarUrl.{is_digest}
use nixcached.Upload.{NarInfo, World, not_found, dump, upload_store_path}
use nixcached.Upload.Bucket.{visible}
use nixcached.Stores.{Cli, on_this_machine, PathInfo, answer, bucket_nar_info}
use nixcached.Stores.Uploaded.{read_of, bucket_nar_info-upload_store_path}
use nixcached.UiCache.Sql.{sort_texts, insert_text}
use nixcached.Stores.SshList.{Session, ssh_list, with_process, read_entries, ssh_list-query_path}
use nixcached.Tests.Small.{tiny, object_of-digest}
use nixcached.Tests.Bucket.{reported, world, plain_options, dumped, empty_bucket}

abbrev pub directory : List (List Bytes)
directory = (codes "aa-x" ∷ codes "ab-y" ∷ []) ∷ [] ∷ (codes "ac-z" ∷ []) ∷ []

abbrev pub elem : PathInfo
elem = record {
  deriver = [];
  nar_hash = codes "NAR";
  nar_size = 3;
  path = codes "ab-y";
  references = [];
  signatures = [];
  ca = [];
}

-- A command that prints one object with one field.
abbrev pub command : Cli
command = record {
  run = λ args. some (codes "{");
  parse_object = λ out. some ((codes "ab-y", some elem) ∷ []);
  parse_array = λ out. none;
  origin = on_this_machine;
  print_url = λ user u. codes "file://" ++ u.path;
}

-- What the upload of `reported` publishes, and a bucket that can be read back.
abbrev uploaded : NarInfo
uploaded = record reported {
  url = codes "nar/zNAR.nar.gz";
  compression = gzip;
  file_hash = codes "zNAR";
  file_size = pos 4;
}

abbrev readable : World ℕ Bytes
readable = record (world not_found) { unmarshal_text = λ text. some uploaded }

bucket_nar_info-upload_store_path_example :
    bucket_nar_info {E = ℕ} tiny
      (read_of (visible (upload_store_path readable reported plain_options []).1 empty_bucket))
      readable.unmarshal_text
      some
      (λ key u. codes "mem:" ++ u)
      (codes "ab")
    ≡ answer (record uploaded { url = codes "mem:nar/zNAR.nar.gz" })
unfolding has_prefix dump compression_extension same is_digest contains_byte
bucket_nar_info-upload_store_path_example =
    bucket_nar_info-upload_store_path readable (λ h key content mime. refl) tiny some
      (λ key u. codes "mem:" ++ u) dumped reported plain_options (codes "nar/zNAR.nar.gzNAR") []
      empty_bucket (codes "nar/zNAR.nar.gz") refl refl refl refl refl refl refl refl (inr refl) refl
      refl refl refl

-- A listing over sftp in no order.
abbrev session : Session ℕ
session = record {
  stdin_pipe = none;
  stdout_pipe = none;
  start = none;
  new_client = none;
  read_dir = some (codes "cd-y" ∷ codes "ab-x" ∷ []);
}

session-entries : (ssh_list session).1 ≡ some (codes "ab-x" ∷ codes "cd-y" ∷ [])
unfolding ssh_list with_process read_entries sort_texts insert_text bytes_le
session-entries = refl

ssh_list-query_path_example :
    (names : List Bytes) × (some (codes "cd-y" ∷ codes "ab-x" ∷ []) ≡ some names)
    × ((p : Bytes → Bool) → count p (codes "ab-x" ∷ codes "cd-y" ∷ []) ≡ count p names)
    × ((digest : Bytes)
        → query_path tiny (codes "/nix/store") (codes "ab-x" ∷ codes "cd-y" ∷ []) true digest
          ≡ query_path tiny (codes "/nix/store") (codes "ab-x" ∷ codes "cd-y" ∷ []) false digest)
ssh_list-query_path_example =
    ssh_list-query_path session tiny (λ dir entry p e. object_of-digest entry p e)
      (codes "/nix/store") (codes "ab-x" ∷ codes "cd-y" ∷ []) session-entries
