-- ===== src/Intake/Handover/Control.antt =====
-- Which states the two goroutines of `runUpload` come to together.
use nixcached.Prelude.{◌≡◌, Bool, true, false, arith, List, [], ◌⊎◌, inl, inr, Bytes, Option-cases}
use nixcached.Nix.{Nix, StorePath}
use nixcached.Intake.{take_in}
use nixcached.Intake.Handover.{
  Run, ScanSide, scanning, sending, waiting, returned, ProcessSide, collecting, uploading, leaving,
  ended, scan_error, context_error, Step, cancel, scan, close, stop_scanning, stop_sending,
  hand_over, see_end, end_batch, start_uploads, drop_batch, stop_uploads, finish, return_, Reach,
  here, next, begin, receive,
}

abbrev pub is_finished : ScanSide → Bool
is_finished scanning = false
is_finished (sending p) = false
is_finished (waiting scan_error) = true
is_finished (waiting context_error) = false
is_finished (returned scan_error) = true
is_finished (returned context_error) = false

abbrev pub is_cut : ScanSide → Bool
is_cut scanning = false
is_cut (sending p) = false
is_cut (waiting scan_error) = false
is_cut (waiting context_error) = true
is_cut (returned scan_error) = false
is_cut (returned context_error) = true

abbrev pub is_returned : ScanSide → Bool
is_returned (returned o) = true
is_returned scanning = false
is_returned (sending p) = false
is_returned (waiting o) = false

abbrev pub batch_of : ProcessSide → List StorePath
batch_of (collecting batch) = batch
batch_of uploading = []
batch_of (leaving batch) = batch
batch_of (ended batch) = batch

abbrev pub is_left : ProcessSide → Bool
is_left (collecting batch) = false
is_left uploading = false
is_left (leaving batch) = true
is_left (ended batch) = true

abbrev pub is_over : ProcessSide → Bool
is_over (ended batch) = true
is_over (collecting batch) = false
is_over uploading = false
is_over (leaving batch) = false

pub record IsOrderly (s : Run) : Type 0 where
  pub closed : s.is_closed ≡ is_finished s.caller
  pub cut : is_cut s.caller ≡ true → s.is_cancelled ≡ true
  pub passed : s.is_cancelled ≡ true → s.is_process_cancelled ≡ true
  pub caused : is_over s.worker ≡ false → s.is_process_cancelled ≡ true → s.is_cancelled ≡ true
  pub left :
      is_left s.worker ≡ true
      → ((s.is_closed ≡ true) × (batch_of s.worker ≡ [])) ⊎ (s.is_cancelled ≡ true)
  pub over : is_returned s.caller ≡ true → is_over s.worker ≡ true

module _ (nix : Nix) (dir : Bytes) where
  Step-IsOrderly : (s t : Run) → Step nix dir s t → IsOrderly s → IsOrderly t
  unfolding receive
  Step-IsOrderly s t (cancel c e) h = ground arith
  Step-IsOrderly s t (scan raw rest c l e) h = elim (Option-cases (take_in nix dir raw)) [
    | inl n ↦ ground arith
    | inr (p, n) ↦ ground arith
  ]
  Step-IsOrderly s t (close c l e) h = ground arith
  Step-IsOrderly s t (stop_scanning c l e) h = ground arith
  Step-IsOrderly s t (stop_sending p c l e) h = ground arith
  Step-IsOrderly s t (hand_over p batch c w e) h = ground arith
  Step-IsOrderly s t (see_end w c e) h = ground arith
  Step-IsOrderly s t (end_batch p batch w e) h = ground arith
  Step-IsOrderly s t (start_uploads w e) h = ground arith
  Step-IsOrderly s t (drop_batch batch w c e) h = ground arith
  Step-IsOrderly s t (stop_uploads w c e) h = ground arith
  Step-IsOrderly s t (finish batch w e) h = ground arith
  Step-IsOrderly s t (return_ batch o c w e) h = ground arith

  begin-IsOrderly : (texts : List Bytes) → IsOrderly (begin texts)
  unfolding begin
  begin-IsOrderly texts = ground arith

  pub Reach-IsOrderly : (texts : List Bytes) (s : Run) → Reach nix dir (begin texts) s → IsOrderly s
  Reach-IsOrderly texts s here = begin-IsOrderly texts
  Reach-IsOrderly texts s (next {t} r st) = Step-IsOrderly t s st (Reach-IsOrderly texts t r)
