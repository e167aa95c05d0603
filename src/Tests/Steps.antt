-- ===== src/Tests/Steps.antt =====
-- Examples of runs of goroutines.
use nixcached.Prelude.{
  ℕ, ◌+◌, ◌*◌, ◌≤◌, ◌≡◌, refl, Bool, true, false, arith, List, [], ◌∷◌, ◌⊎◌, Option, none, some,
  count, Bytes, codes,
}
use nixcached.Upload.{NarInfo}
use nixcached.Serve.{Lookup, hit, missing}
use nixcached.Intake.Jobs
use nixcached.Intake.Jobs.Progress.{steps, Reach-waits_for_jobs}
use nixcached.Calls
use nixcached.Calls.Owned.{IsOwned, Reach-closes_files}
use nixcached.BatchInfo
use nixcached.BatchInfo.Progress
use nixcached.Tests.Bucket.{reported}

-- Two uploads, one at a time; the context ends during the second one.
abbrev uploads : List ℕ
uploads = 1 ∷ 2 ∷ 3 ∷ []

abbrev all_done : Jobs.Jobs ℕ
all_done = record {
  waiting = 3 ∷ [];
  running = [];
  done = 2 ∷ 1 ∷ [];
  filled = 1;
  cancelled = true;
  stopped = true;
  returned = true;
}

one_at_a_time : Jobs.Reach 1 (Jobs.begin uploads) all_done
unfolding Jobs.begin
one_at_a_time =
    Jobs.next
      (Jobs.next
        (Jobs.next
          (Jobs.next
            (Jobs.next
              (Jobs.next
                (Jobs.next
                  (Jobs.next Jobs.here (Jobs.start 1 (2 ∷ 3 ∷ []) refl refl (omega arith) refl))
                  (Jobs.finish [] [] 1 refl refl))
                (Jobs.start 2 (3 ∷ []) refl refl (omega arith) refl))
              (Jobs.end_context refl refl))
            (Jobs.cancel refl refl refl))
          (Jobs.finish [] [] 2 refl refl))
        (Jobs.fill refl (omega arith) (omega arith) refl))
      (Jobs.return_ refl refl refl refl)

Reach-waits_for_jobs_example :
    (steps 1 one_at_a_time ≤ 2 * 3 + 1 + 3)
    × (0 ≤ 1)
    × (true ≡ false → (t : Jobs.Jobs ℕ) × Jobs.Step 1 all_done t × (t.cancelled ≡ true))
    × (true ≡ true
        → (all_done.running ≡ [])
          × ((p : ℕ → Bool) → count p (3 ∷ []) + count p (2 ∷ 1 ∷ []) ≡ count p uploads)
          × (true ≡ false → (p : ℕ → Bool) → count p (2 ∷ 1 ∷ []) ≡ count p uploads))
Reach-waits_for_jobs_example = Reach-waits_for_jobs 1 uploads all_done one_at_a_time (omega arith)

-- The context ends, the caller goes, and the file is opened too late.
abbrev too_late : Calls.Call (Calls.FileResult ℕ)
too_late = record {
  worker = Calls.exited;
  caller = Calls.abandoned;
  cancelled = true;
  open_files = [];
}

late : Calls.Reach (Calls.open_file_ctx ℕ) (Calls.begin (Calls.FileResult ℕ)) too_late
unfolding Calls.begin Calls.close_result
late =
    Calls.next
      (Calls.next
        (Calls.next (Calls.next Calls.here (Calls.cancel refl)) (Calls.abandon refl refl refl))
        (Calls.called (some 7, none) refl refl))
      (Calls.drop_ (some 7, none) refl refl refl)

-- The caller has got the count of a write.
abbrev counted : Calls.Call (ℕ × Option ℕ)
counted = record {
  worker = Calls.exited;
  caller = Calls.got (3, none);
  cancelled = false;
  open_files = [];
}

written : Calls.Reach (Calls.write_ctx ℕ) (Calls.begin (ℕ × Option ℕ)) counted
unfolding Calls.begin
written =
    Calls.next (Calls.next Calls.here (Calls.called (3, none) refl refl))
      (Calls.hand_over (3, none) refl refl refl)

Reach-closes_files_example :
    IsOwned (Calls.open_file_ctx ℕ) too_late × IsOwned (Calls.write_ctx ℕ) counted
Reach-closes_files_example = Reach-closes_files ℕ too_late counted late written

-- A store that has one of two objects.
abbrev lookup_x : Bytes → Lookup
lookup_x [] = missing
lookup_x (c ∷ d) = hit reported

abbrev asked : List Bytes
asked = codes "x" ∷ [] ∷ []

abbrev answered : BatchInfo.Batch
answered = record {
  waiting = [];
  running = [];
  result = reported ∷ [];
  cancelled = false;
  failed = false;
}

-- The second lookup ends first.
crossed : BatchInfo.Reach lookup_x 2 (BatchInfo.begin asked) answered
unfolding BatchInfo.begin
crossed =
    BatchInfo.next
      (BatchInfo.next
        (BatchInfo.next
          (BatchInfo.next BatchInfo.here
            (BatchInfo.start (codes "x") ([] ∷ []) refl (omega arith) refl))
          (BatchInfo.start [] [] refl (omega arith) refl))
        (BatchInfo.skip [] (codes "x" ∷ []) [] refl refl refl))
      (BatchInfo.append [] [] (codes "x") reported refl refl refl)

Reach-in_turn_example :
    (Progress.steps lookup_x 2 crossed ≤ 2 * 2 + 1)
    × (0 ≤ 2)
    × (((t : BatchInfo.Batch) × BatchInfo.Step lookup_x 2 answered t)
        ⊎ ((answered.waiting ≡ [])
            × (answered.running ≡ [])
            × ((p : NarInfo → Bool)
                → (count p (reported ∷ []) ≤ count p (BatchInfo.in_turn lookup_x asked))
                  × (false ≡ false
                      → count p (reported ∷ []) ≡ count p (BatchInfo.in_turn lookup_x asked)))))
Reach-in_turn_example = Progress.Reach-in_turn lookup_x 2 asked answered crossed (omega arith)
