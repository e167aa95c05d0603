-- ===== src/Tests/Run.antt =====
-- A server that runs over systemd's socket, an xz process that starts at the second attempt, and
-- sizes as they are shown_size.
use nixcached.Prelude.{
  ℕ, ℤ, pos, negsuc, ◌≡◌, refl, true, arith, List, [], ◌∷◌, ◌++◌, Option, none, some, ◌⊎◌, is_empty,
  if◌then◌else◌, length, Bytes, codes, has_prefix, same,
}
use nixcached.Download.{Ssh, ssh_exe}
use nixcached.Serve.Run.{
  ssh_store, bucket_store, ok, RunWorld, temp_dir, cache_pool, bucket, opened, closed, served,
  inherited, handed_over, discovery_ended, ssh_directory, open_ssh, open_store, serve_store, listen,
  with_store, run_serve,
}
use nixcached.Serve.Sockets.{sockets_open}
use nixcached.Serve.Balance.{open_store-ssh_exe}
use nixcached.Serve.Size.{
  Shows, format_size, format_size-Shows, shown_size, round_quotient, tenths, kib, mib,
}
use nixcached.XzWriter.{
  start_failed, started, input, close_input, wait, Command, Writer, new_writer, add, xz_close,
  xz_write, xz_init, start_process, write_after,
}
use nixcached.XzWriter.Life.{starts, inputs, after_writes, after_writes-xz_close}

abbrev machine : RunWorld ℕ
machine = record {
  mkdir_temp = none;
  clean_store_directory = λ s. ok s;
  parse_url = λ s. ok (record { host = codes "h"; username = codes "u"; path = codes "/" });
  ssh_variable = codes "/bin/ssh2";
  new_bucket_opener = none;
  open_bucket = λ s. none;
  listeners = ok 1;
  serve = λ s. none;
  discovers = λ s. true;
}

run_serve-bucket : run_serve machine (codes "gs://b") true ≡ (
  opened temp_dir
      ∷ opened cache_pool
      ∷ opened bucket
      ∷ inherited 1
      ∷ handed_over
      ∷ served (bucket_store (codes "gs://b"))
      ∷ discovery_ended (bucket_store (codes "gs://b"))
      ∷ closed bucket
      ∷ closed cache_pool
      ∷ closed temp_dir
      ∷ [],
  none,
)
unfolding run_serve open_store with_store listen serve_store has_prefix
run_serve-bucket = refl

-- Two sockets are opened and stay open.
two_sockets-left :
    sockets_open 0 (run_serve (record machine { listeners = ok 2 }) (codes "gs://b") true).0 ≡ 2
unfolding run_serve open_store with_store listen has_prefix sockets_open
two_sockets-left = refl

abbrev remote : Ssh
remote = record {
  host = codes "h";
  username = codes "u";
  directory = [];
  ssh_executable = codes "/bin/ssh2";
  executable = [];
}

open_store-remote : open_store machine (codes "ssh://u@h/") ≡ ok (ssh_store remote)
unfolding open_store open_ssh ssh_directory has_prefix same
open_store-remote = refl

open_store-ssh_exe_example :
    (codes "/bin/ssh2" ≡ codes "/bin/ssh2") × (ssh_exe remote ≡ codes "ssh")
open_store-ssh_exe_example =
    open_store-ssh_exe machine (codes "ssh://u@h/") remote open_store-remote

-- The first attempt to start the process fails.
abbrev slow : Command ℕ
slow = record {
  stdin_pipe = λ h. none;
  start = λ h. if is_empty h then some 1 else none;
  write = λ h p. (length p, none);
  close_stdin = λ h. none;
  wait_for = λ h. none;
}

abbrev two_writes : Writer
two_writes = after_writes slow (new_writer none) (codes "a" ∷ codes "b" ∷ [])

two_writes-done : two_writes.done ≡ start_failed ∷ started (codes "xz") ∷ input (codes "b") ∷ []
unfolding after_writes xz_write write_after xz_init start_process new_writer
two_writes-done = refl

after_writes-xz_close_example :
    ((starts two_writes.done ≡ 0)
      × (inputs two_writes.done ≡ [])
      × (xz_close slow two_writes ≡ none))
    ⊎ ((qs : List Bytes) × (p : Bytes) × (rs : List Bytes) × (e : Option ℕ) × (codes "a"
            ∷ codes "b"
            ∷ []
          ≡ qs ++ p ∷ rs)
        × (starts two_writes.done ≡ 1)
        × (inputs two_writes.done ≡ p ∷ rs)
        × (xz_close slow two_writes ≡ some (add (add two_writes close_input) wait, e)))
after_writes-xz_close_example = after_writes-xz_close slow none (codes "a" ∷ codes "b" ∷ [])

abbrev digits : ℤ → Bytes
digits (pos n) = codes "n"
digits (negsuc n) = codes "-n"

abbrev same_number : ℤ → ℤ
same_number n = n

format_size-Shows_example : Shows digits 1500000 (format_size digits same_number (pos 1500000))
format_size-Shows_example = format_size-Shows digits same_number (λ m h. refl) 1500000 (omega arith)

-- 1.4 MiB, and 0.5 KiB.
shown_sizes : (shown_size 1500000 ≡ tenths 14 mib) × (shown_size 512 ≡ tenths 5 kib)
unfolding shown_size round_quotient
shown_sizes = (refl, refl)

-- A file size that is not known is -1.
unknown_size : format_size digits same_number (negsuc 0) ≡ codes "-n byte"
unfolding format_size
unknown_size = refl
