-- ===== src/Intake/Handover/Progress.antt =====
-- `runUpload` comes to its end, and what it has handled then.
use nixcached.Prelude.{
  ℕ, suc, ◌+◌, ◌*◌, ◌≤◌, ◌<◌, ◌≡◌, refl, sym, ap, ◌∙◌, true, false, arith, List, [], ◌∷◌, ◌++◌, inl,
  inr, append-nil, append_assoc, if◌then◌else◌, length, Bytes, Option-cases, All, concat,
}
use nixcached.Nix.{Nix, StorePath}
use nixcached.Intake.{take_in, scan_loop}
use nixcached.Intake.Handover.{
  Run, ScanSide, scanning, sending, waiting, returned, ProcessSide, collecting, uploading, leaving,
  ended, RunResult, scan_error, context_error, Step, cancel, scan, close, stop_scanning,
  stop_sending, hand_over, see_end, end_batch, start_uploads, drop_batch, stop_uploads, finish,
  return_, Reach, here, next, begin, receive,
}
use nixcached.Intake.Handover.Control.{
  is_returned, is_over, is_left, is_cut, is_finished, batch_of, IsOrderly, Reach-IsOrderly,
}
use nixcached.Intake.Handover.Content.{IsIntact, Reach-IsIntact}

-- How much each side has to do at most.
abbrev caller_left : ScanSide → ℕ
caller_left scanning = 3
caller_left (sending p) = 8
caller_left (waiting o) = 1
caller_left (returned o) = 0

abbrev worker_left : ProcessSide → ℕ
worker_left (collecting []) = 3
worker_left (collecting (p ∷ batch)) = 5
worker_left uploading = 4
worker_left (leaving batch) = 1
worker_left (ended batch) = 0

abbrev left : Run → ℕ
left s =
    6 * length s.texts
    + caller_left s.caller
    + worker_left s.worker
    + (if s.is_cancelled then 0 else 1)

worker_left-some : (batch : List StorePath) → 3 ≤ worker_left (collecting batch)
worker_left-some [] = omega arith
worker_left-some (p ∷ batch) = omega arith

worker_left-le : (batch : List StorePath) → worker_left (collecting batch) ≤ 5
worker_left-le [] = omega arith
worker_left-le (p ∷ batch) = omega arith

over-left : (w : ProcessSide) → is_over w ≡ true → is_left w ≡ true
over-left (collecting b) h = cc h
over-left uploading h = cc h
over-left (leaving b) h = refl
over-left (ended b) h = refl

module _ (nix : Nix) (dir : Bytes) where
  Step-left : (s t : Run) → Step nix dir s t → left t < left s
  unfolding receive
  Step-left s t (cancel c e) = ground arith
  Step-left s t (scan raw rest c l e) = elim (Option-cases (take_in nix dir raw)) [
    | inl n ↦ ground arith
    | inr (p, n) ↦ ground arith
  ]
  Step-left s t (close c l e) = ground arith
  Step-left s t (stop_scanning c l e) = ground arith
  Step-left s t (stop_sending p c l e) = ground arith
  Step-left s t (hand_over p batch c w e) =
      ground (arith, worker_left-some batch, worker_left-le (batch ++ p ∷ []))
  Step-left s t (see_end w c e) = ground arith
  Step-left s t (end_batch p batch w e) = ground arith
  Step-left s t (start_uploads w e) = ground arith
  Step-left s t (drop_batch batch w c e) = ground (arith, worker_left-some batch)
  Step-left s t (stop_uploads w c e) = ground arith
  Step-left s t (finish batch w e) = ground arith
  Step-left s t (return_ batch o c w e) = ground arith

  abbrev pub steps : {s t : Run} → Reach nix dir s t → ℕ
  steps here = 0
  steps (next r st) = suc (steps r)

  Reach-left : (s t : Run) (r : Reach nix dir s t) → steps r + left t ≤ left s
  Reach-left s t here = omega arith
  Reach-left s t (next {t = u} r st) = omega (arith, Reach-left s u r, Step-left u t st)

  -- A step that is not the end of the context.
  abbrev pub Goes : Run → Type 0
  Goes s = (t : Run) × Step nix dir s t × (t.is_cancelled ≡ s.is_cancelled)

  scan_step : (s : Run) (rest : List Bytes) → s.caller ≡ scanning → s.texts ≡ rest → Goes s
  scan_step s [] c l = (_, close c l refl, refl)
  scan_step s (raw ∷ rest) c l = (_, scan raw rest c l refl, refl)

  receive-is_cancelled :
      (b : List StorePath) (s : Run) → (receive b s).is_cancelled ≡ s.is_cancelled
  unfolding receive
  receive-is_cancelled b s = ground arith

  -- Whatever the worker does at this point, the caller that sends a path gets on.
  sending_step :
      (s : Run) (p : StorePath) (w : ProcessSide)
      → s.caller ≡ sending p
      → s.worker ≡ w
      → IsOrderly s
      → Goes s
  sending_step s p (collecting b) c e h =
      (_, hand_over p b c e refl, receive-is_cancelled (b ++ p ∷ []) s)
  sending_step s p uploading c e h = (_, start_uploads e refl, refl)
  sending_step s p (leaving b) c e h = (_, finish b e refl, refl)
  sending_step s p (ended b) c e h = elim (h.left (ap is_left e)) [
    | inl (closed, _) ↦ cc (h.closed, closed, ap is_finished c)
    | inr q ↦ (_, stop_sending p c q refl, refl)
  ]

  waiting_step :
      (s : Run) (o : RunResult) (w : ProcessSide)
      → s.caller ≡ waiting o
      → s.worker ≡ w
      → IsOrderly s
      → Goes s
  waiting_step s scan_error (collecting []) c e h =
      (_, see_end e (h.closed ∙ ap is_finished c) refl, refl)
  waiting_step s context_error (collecting []) c e h =
      (_, drop_batch [] e (h.passed (h.cut (ap is_cut c))) refl, refl)
  waiting_step s o (collecting (p ∷ b)) c e h = (_, end_batch p b e refl, refl)
  waiting_step s o uploading c e h = (_, start_uploads e refl, refl)
  waiting_step s o (leaving b) c e h = (_, finish b e refl, refl)
  waiting_step s o (ended b) c e h = (_, return_ b o c e refl, refl)

  run_step : (s : Run) (c : ScanSide) → s.caller ≡ c → IsOrderly s → is_returned c ≡ false → Goes s
  run_step s scanning c h q = scan_step s s.texts c refl
  run_step s (sending p) c h q = sending_step s p s.worker c refl h
  run_step s (waiting o) c h q = waiting_step s o s.worker c refl h
  run_step s (returned o) c h q = cc q

  -- Nothing is lost where the context lasts.
  all_handled :
      (texts : List Bytes) (s : Run) (c : ScanSide)
      → IsOrderly s
      → IsIntact nix dir texts s
      → s.caller ≡ c
      → is_returned c ≡ true
      → s.is_cancelled ≡ false
      → (s.caller ≡ returned scan_error) × (concat s.handled ≡ scan_loop nix dir texts)
  unfolding scan_loop
  all_handled texts s scanning o h c q n = cc q
  all_handled texts s (sending p) o h c q n = cc q
  all_handled texts s (waiting e) o h c q n = cc q
  all_handled texts s (returned context_error) o h c q n = cc (o.cut (ap is_cut c), n)
  all_handled texts s (returned scan_error) o h c q n =
      let none_lost : h.lost ≡ [] =
        h.kept (ap is_cut c) ∙ rw (c, h.drained (ap is_finished c)) refl in
      let none_dropped : batch_of s.worker ≡ [] =
        elim (o.left (over-left s.worker (o.over (ap is_returned c)))) [
          | inl (_, e) ↦ e
          | inr e ↦ cc (e, n)
        ] in
      let none_left : batch_of s.worker ++ h.lost ≡ [] = rw (none_dropped, none_lost) refl in
      (
        c,
        sym (append-nil (concat s.handled))
            ∙ (ap (λ l. concat s.handled ++ l) (sym none_left)
                ∙ (sym (append_assoc (concat s.handled) (batch_of s.worker) h.lost) ∙ h.whole)),
      )

-- However its two goroutines interleave and whenever the context ends, `runUpload` returns, if reads
-- from its input, queries and uploads do and uploads may run at all: a run of it over some scanned texts
-- has no more steps than six for each text and seven, and in every state before its return there is a
-- step that does not wait for the end of the context. The batches that are handled have from 1 to 100
-- paths and are, in order, the first of the paths that the loop takes in. When `runUpload` has
-- returned, so has `processUploads`, and where the context has not ended, it returns what the scanner
-- says and all paths have been handled.
pub Reach-hands_over :
    (nix : Nix) (dir : Bytes) (texts : List Bytes) (s : Run) (r : Reach nix dir (begin texts) s)
    → (steps nix dir r ≤ 6 * length texts + 7)
      × (is_returned s.caller ≡ false
          → (t : Run) × Step nix dir s t × (t.is_cancelled ≡ s.is_cancelled))
      × All (λ b. (0 < length b) × (length b ≤ 100)) s.handled
      × ((more : List StorePath) × (concat s.handled ++ more ≡ scan_loop nix dir texts))
      × (is_returned s.caller ≡ true
          → (is_over s.worker ≡ true)
            × (s.is_cancelled ≡ false
                → (s.caller ≡ returned scan_error) × (concat s.handled ≡ scan_loop nix dir texts)))
unfolding begin
Reach-hands_over nix dir texts s r =
    let o = Reach-IsOrderly nix dir texts s r in
    let h = Reach-IsIntact nix dir texts s r in
    (
      omega (arith, Reach-left nix dir (begin texts) s r),
      run_step nix dir s s.caller refl o,
      h.sizes,
      (
        batch_of s.worker ++ h.lost,
        sym (append_assoc (concat s.handled) (batch_of s.worker) h.lost) ∙ h.whole,
      ),
      λ q. (o.over q, all_handled nix dir texts s s.caller o h refl q),
    )
