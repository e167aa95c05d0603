-- ===== src/Tests/Small.antt =====
-- Examples of the commands and of the server on short texts.
use nixcached.Prelude.{
  ℕ, ◌+◌, ◌≤◌, ◌≡◌, refl, ◌⊎◌, inl, inr, true, false, List, [], ◌∷◌, ◌++◌, Option, none, some,
  arith, ◌==◌, ◌&&◌, not, if◌then◌else◌, length, take, drop, keep, concat, All, Bytes, codes,
  has_prefix, contains_byte,
}
use nixcached.Nix.{Nix, StorePath}
use nixcached.Compression.{Compression, no_compression, gzip, bzip2, brotli, xz}
use nixcached.Shell.{command_arg}
use nixcached.Shell.Reader.{words}
use nixcached.Shell.RoundTrip.{words-command_arg}
use nixcached.Send.{run_send, report, outgoing}
use nixcached.Send.Batches.{lines, is_sendable, is_refused}
use nixcached.Send.Report.{run_send-IsShort, run_send_complete}
use nixcached.NarUrl.{parse_nar_url_path}
use nixcached.NarUrl.Unordered.{parse_nar_url_path-SameKeys}
use nixcached.Scan.{drop_cr, scan_all}
use nixcached.Scan.Lines.{lines_of, fits}
use nixcached.Scan.Chunks.{Delivers, scan_all-Delivers}
use nixcached.Scan.Sender.{scan_all-run_send}
use nixcached.Discovery.{System, Reach, here, next, enter, ask, obtain, call, resume, initial}
use nixcached.Discovery.Safety.{Reach-one_task, Step-starts}
use nixcached.Discovery.Pool.{Reach-drained}

words-command_arg_example :
    words (command_arg (codes "/nix") (codes "nix") (codes "it's" ∷ [] ∷ []))
    ≡ some ((codes "NIX_STORE_DIR=" ++ codes "/nix") ∷ codes "nix" ∷ codes "it's" ∷ [] ∷ [])
words-command_arg_example = words-command_arg (codes "/nix") (codes "nix") (codes "it's" ∷ [] ∷ [])

-- A file that takes two chunks.
abbrev fills_up : List Bytes → Bytes → Option ℕ
fills_up (a ∷ b ∷ more) chunk = some 28
fills_up written chunk = none

abbrev pub never_full : List Bytes → Bytes → Option ℕ
never_full written chunk = none

abbrev pub two_paths : List Bytes
two_paths = codes "/nix/store/a" ∷ codes "/nix/store/b" ∷ []

abbrev with_bad_path : List Bytes
with_bad_path = codes "/a" ∷ (97 ∷ 10 ∷ []) ∷ codes "/b" ∷ []

with_bad_path-sent :
    run_send none never_full none with_bad_path
    ≡ record { error = report 1; written = (codes "/a" ++ 10 ∷ codes "/b" ++ 10 ∷ []) ∷ [] }
unfolding run_send report contains_byte
with_bad_path-sent = refl

run_send-IsShort_example :
    All (λ chunk. length chunk ≤ 512) (run_send none fills_up none two_paths).written
run_send-IsShort_example = run_send-IsShort none fills_up none two_paths

run_send_complete_example :
    (concat (run_send none never_full none with_bad_path).written
      ≡ lines (keep is_sendable with_bad_path))
    × ((run_send none never_full none with_bad_path).error
        ≡ report (length (keep is_refused with_bad_path)))
run_send_complete_example = run_send_complete never_full (λ w b. refl) with_bad_path

-- Objects are two letters of digest, a dash and a name.
abbrev pub object_of : Bytes → Option StorePath
object_of (a ∷ b ∷ c ∷ rest) =
    if c == 45 && not (contains_byte 47 (a ∷ b ∷ c ∷ rest)) then some (a ∷ b ∷ c ∷ rest) else none
object_of s = none

abbrev pub tiny : Nix
tiny = record {
  default_dir = codes "/nix/store";
  nar_info_extension = codes ".narinfo";
  nar_extension = codes ".nar";
  object = λ dir entry. object_of entry;
  parse_path = λ dir path. some (path, []);
  digest = λ p. take 2 p;
  name = λ p. drop 3 p;
  is_derivation = λ p. false;
}

pub object_of-digest :
    (entry : Bytes) (p : StorePath) → object_of entry ≡ some p → has_prefix (take 2 p) entry ≡ true
unfolding has_prefix
object_of-digest [] p e = cc e
object_of-digest (a ∷ []) p e = cc e
object_of-digest (a ∷ b ∷ []) p e = cc e
object_of-digest (a ∷ b ∷ c ∷ rest) p e = ground arith

abbrev pub all_orders : List Compression
all_orders = xz ∷ no_compression ∷ gzip ∷ brotli ∷ bzip2 ∷ []

abbrev chunks : List Bytes
chunks = codes "/a" ∷ (10 ∷ codes "/b") ∷ (13 ∷ []) ∷ (10 ∷ 0 ∷ []) ∷ (10 ∷ codes "/c") ∷ []

scan_all-Delivers_example : Delivers (scan_all chunks) (lines_of (concat chunks))
unfolding fits
scan_all-Delivers_example = scan_all-Delivers chunks refl

abbrev pub pipe : List Bytes
pipe =
    codes "/nix/store/"
    ∷ (97 ∷ 10 ∷ codes "/nix/")
    ∷ codes "store/b"
    ∷ (10 ∷ 0 ∷ [])
    ∷ (10 ∷ [])
    ∷ []

scan_all-run_send_example : Delivers (scan_all pipe) two_paths
unfolding fits contains_byte drop_cr outgoing run_send
scan_all-run_send_example =
    scan_all-run_send never_full (λ w b. refl) two_paths pipe []
      ((refl, refl, refl), ((refl, refl, refl), tt)) refl refl

abbrev asked : System
asked = call 10 (record (initial 3) { free = 2 })

Reach-one_task_example :
    (asked.tasks ≤ 1)
    × ((asked.server.done_set ≡ asked.server.cancel_set)
        × (asked.free + asked.serving + asked.waiting + asked.tasks + asked.ending + asked.lost
            ≡ 3))
unfolding initial
Reach-one_task_example =
    Reach-one_task 10 3 asked (next (next here (enter 2 refl refl)) (ask 0 refl refl))

abbrev begun : System
begun = resume 10 (record asked { waiting = 0; free = 1; serving = 1 })

Step-starts_example :
    (asked.tasks ≡ 0)
    × (asked.server.cancel_set ≡ false)
    × (asked.server.done_set ≡ false)
    × ((asked.server.last_end ≡ 0) ⊎ (asked.server.last_end + 10 ≤ asked.clock))
    × (begun.tasks ≡ 1)
    × (begun.server.cancel_set ≡ true)
    × (begun.server.done_set ≡ true)
unfolding initial call resume
Step-starts_example =
    Step-starts 10 3 asked begun (next (next here (enter 2 refl refl)) (ask 0 refl refl))
      (obtain 0 1 refl refl refl) (omega arith)

Reach-drained_example : (t : System) × (Reach 10 (initial 5) t × ((t.free ≡ 2) × (t.lost ≡ 3)))
Reach-drained_example = Reach-drained 10 3 (omega arith)

swapped : {c a b : Compression} → (c ≡ a) ⊎ ((c ≡ b) ⊎ ⊥) → (c ≡ b) ⊎ ((c ≡ a) ⊎ ⊥)
swapped (inl e) = inr (inl e)
swapped (inr (inl e)) = inl e
swapped (inr (inr z)) = elim z [ ]

parse_nar_url_path-SameKeys_example :
    parse_nar_url_path tiny (gzip ∷ xz ∷ []) (codes "/nar/ab.nar.xz")
    ≡ parse_nar_url_path tiny (xz ∷ gzip ∷ []) (codes "/nar/ab.nar.xz")
parse_nar_url_path-SameKeys_example =
    parse_nar_url_path-SameKeys tiny (gzip ∷ xz ∷ []) (xz ∷ gzip ∷ []) (λ c. (swapped, swapped))
      (codes "/nar/ab.nar.xz")
