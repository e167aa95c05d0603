-- ===== src/Tests/Intake.antt =====
-- Examples of the upload command's intake.
use nixcached.Prelude.{
  ◌+◌, ◌*◌, ◌≤◌, ◌<◌, ◌++◌, ◌≡◌, refl, arith, Bool, true, false, List, [], ◌∷◌, Option, none, some,
  length, concat, All, codes, same, some_inj, contains_byte,
}
use nixcached.Nix.{StorePath}
use nixcached.Send.{run_send, outgoing}
use nixcached.Scan.{drop_cr, scan_all, scan_lines_with_eof}
use nixcached.Scan.Lines.{fits}
use nixcached.Upload.{NarInfo}
use nixcached.HashPart.{bytes_le}
use nixcached.UiCache.Sql.{sort_texts, insert_text}
use nixcached.Intake.Setup.{join_words, supported_compression_types}
use nixcached.Intake.{take_in, scan_loop, is_visited}
use nixcached.Intake.Handover.{
  Run, scan_error, returned, ended, Step, scan, close, hand_over, see_end, end_batch, start_uploads,
  finish, return_, Reach, here, next, begin, receive,
}
use nixcached.Intake.Handover.Progress.{steps, Reach-hands_over}
use nixcached.Intake.Coverage.{Agrees, paths_of}
use nixcached.Intake.Reached.{all_infos, sent_path_requested}
use nixcached.Tests.Small.{tiny, two_paths, pipe, never_full}
use nixcached.Tests.Bucket.{reported}

-- Both paths are taken in.
two_paths-taken : scan_loop tiny (codes "/nix/store") two_paths ≡ two_paths
unfolding scan_loop take_in
two_paths-taken = refl

-- A store that answers queries for one path only.
abbrev one_at_a_time : List StorePath → Option (List NarInfo)
one_at_a_time [] = some []
one_at_a_time (p ∷ []) =
    some
      (record reported { store_path = p } ∷ record reported { nar_hash = []; store_path = [] } ∷ [])
one_at_a_time (p ∷ q ∷ paths) = none

-- The empty path alone is not valid; the one that a query is for is taken to be another one.
abbrev is_valid : StorePath → Bool
is_valid [] = false
is_valid (c ∷ p) = true

abbrev sane : List StorePath → Option (List NarInfo)
sane ((c ∷ p) ∷ []) = some (
    record reported { store_path = c ∷ p }
    ∷ record reported { nar_hash = []; store_path = [] }
    ∷ [])
sane paths = none

sane-Agrees :
    (q : StorePath) (infos : List NarInfo)
    → sane (q ∷ []) ≡ some infos
    → All (Agrees is_valid) infos
sane-Agrees [] infos e = cc e
sane-Agrees (c ∷ p) infos e = rw (← some_inj e) (refl, (refl, tt))

four_compressions :
    supported_compression_types (codes "xz" ∷ codes "none" ∷ codes "gzip" ∷ codes "bzip2" ∷ [])
    ≡ codes "bzip2, gzip, none, or xz"
unfolding supported_compression_types sort_texts insert_text bytes_le join_words
four_compressions = refl

sane_reports :
    (qs : List StorePath) (infos : List NarInfo)
    → sane qs ≡ some infos
    → (q : StorePath) → is_visited q qs ≡ true
    → is_visited q (paths_of infos) ≡ true
unfolding is_visited
sane_reports [] infos e q m = cc m
sane_reports ([] ∷ []) infos e q m = cc e
sane_reports ((c ∷ p) ∷ []) infos e q m = rw (← some_inj e) (ground arith)
sane_reports ([] ∷ r ∷ more) infos e q m = cc e
sane_reports ((c ∷ p) ∷ r ∷ more) infos e q m = cc e

-- Two batches of one path each; the timer ends the first one.
abbrev in_two_batches : Run
in_two_batches = record {
  texts = [];
  caller = returned scan_error;
  is_closed = true;
  is_cancelled = false;
  is_process_cancelled = true;
  worker = ended [];
  handled = (codes "/nix/store/a" ∷ []) ∷ (codes "/nix/store/b" ∷ []) ∷ [];
}

run_in_two_batches : Reach tiny (codes "/nix/store") (begin (scan_all pipe).tokens) in_two_batches
unfolding fits contains_byte drop_cr scan_all scan_lines_with_eof take_in receive begin
run_in_two_batches =
    next
      (next
        (next
          (next
            (next
              (next
                (next
                  (next
                    (next
                      (next
                        (next
                          (next here (
                            scan (codes "/nix/store/a") (codes "/nix/store/b" ∷ []) refl refl refl))
                          (hand_over (codes "/nix/store/a") [] refl refl refl))
                        (end_batch (codes "/nix/store/a") [] refl refl))
                      (start_uploads refl refl))
                    (scan (codes "/nix/store/b") [] refl refl refl))
                  (hand_over (codes "/nix/store/b") [] refl refl refl))
                (close refl refl refl))
              (end_batch (codes "/nix/store/b") [] refl refl))
            (start_uploads refl refl))
          (see_end refl refl refl))
        (finish [] refl refl))
      (return_ [] scan_error refl refl refl)

Reach-hands_over_example :
    (steps tiny (codes "/nix/store") run_in_two_batches ≤ 6 * length (scan_all pipe).tokens + 7)
    × (true ≡ false
        → (t : Run) × Step tiny (codes "/nix/store") in_two_batches t × (t.is_cancelled ≡ false))
    × All (λ b. (0 < length b) × (length b ≤ 100)) in_two_batches.handled
    × ((more : List StorePath) × (concat in_two_batches.handled ++ more
          ≡ scan_loop tiny (codes "/nix/store") (scan_all pipe).tokens))
    × (true ≡ true
        → (true ≡ true)
          × (false ≡ false
              → (in_two_batches.caller ≡ returned scan_error)
                × (concat in_two_batches.handled
                    ≡ scan_loop tiny (codes "/nix/store") (scan_all pipe).tokens)))
Reach-hands_over_example =
    Reach-hands_over tiny (codes "/nix/store") (scan_all pipe).tokens in_two_batches
      run_in_two_batches

sent_path_requested_example :
    is_visited (codes "/nix/store/b") (paths_of (all_infos sane in_two_batches.handled)) ≡ true
unfolding fits contains_byte drop_cr outgoing run_send scan_loop take_in is_visited same
sent_path_requested_example =
    sent_path_requested is_valid sane sane-Agrees sane_reports tiny (codes "/nix/store") never_full
      (λ w b. refl) two_paths pipe [] ((refl, refl, refl), ((refl, refl, refl), tt)) refl refl
      in_two_batches run_in_two_batches refl refl (codes "/nix/store/b")
      (record reported { store_path = codes "/nix/store/b" }
        ∷ record reported { nar_hash = []; store_path = [] }
        ∷ [])
      refl refl refl
