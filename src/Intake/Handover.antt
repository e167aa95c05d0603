-- ===== src/Intake/Handover.antt =====
-- The two goroutines of `runUpload` (upload.go): the loop over the scanned texts, which sends store
-- paths on an unbuffered channel, and `processUploads`, which receives them in batches, with the end of
-- the context and the deferred wait. The uploads of a batch are one step: Intake.Jobs has their own.
pub mod Control
pub mod Content
pub mod Progress
use nixcached.Prelude.{
  suc, ◌<◌, ◌≡◌, Bool, true, false, List, [], ◌∷◌, ◌++◌, Option, none, some, ltb, if◌then◌else◌,
  length, Bytes,
}
use nixcached.Nix.{Nix, StorePath}
use nixcached.Intake.{take_in, batch_size}

-- What `runUpload` returns: the scanner's error, which may be nil, or that of the context.
pub data RunResult : Type 0 where
  scan_error context_error : RunResult

pub data ScanSide : Type 0 where
  scanning : ScanSide
  -- at `storePaths <- storePath`
  sending : StorePath → ScanSide
  -- at `<-processDone`
  waiting returned : RunResult → ScanSide

-- Where `processUploads` is, with its batch.
pub data ProcessSide : Type 0 where
  collecting : List StorePath → ProcessSide
  -- behind `gatherStorePathSet`
  uploading : ProcessSide
  -- in its deferred loop, and behind the close of `processDone`
  leaving ended : List StorePath → ProcessSide

pub record Run : Type 0 where
  -- what the scanner has not delivered
  pub texts : List Bytes
  pub caller : ScanSide
  pub is_closed : Bool
  -- `ctx` and `processCtx`
  pub is_cancelled : Bool
  pub is_process_cancelled : Bool
  pub worker : ProcessSide
  -- the batches that were given to `gatherStorePathSet`
  pub handled : List (List StorePath)

abbrev pub after_take : Option StorePath → ScanSide
after_take none = scanning
after_take (some p) = sending p

-- A batch goes on while it has room.
unfoldable pub receive : List StorePath → Run → Run
receive batch s =
    if ltb (length batch) batch_size
    then record s { caller = scanning; worker = collecting batch }
    else record s { caller = scanning; worker = uploading; handled = s.handled ++ batch ∷ [] }

-- `return ctx.Err()`, with the first deferred call.
abbrev pub leave_loop : Run → Run
leave_loop s = record s { caller = waiting context_error; is_process_cancelled = true }

module _ (nix : Nix) (dir : Bytes) where
  pub data Step (s : Run) (t : Run) : Type 0 where
    -- the context ends
    cancel :
        s.is_cancelled ≡ false
        → t ≡ record s { is_cancelled = true; is_process_cancelled = true }
        → Step s t
    -- `scanner.Scan()` is true
    scan :
        (raw : Bytes) (rest : List Bytes)
        → s.caller ≡ scanning
        → s.texts ≡ raw ∷ rest
        → t ≡ record s { texts = rest; caller = after_take (take_in nix dir raw) }
        → Step s t
    -- `scanner.Scan()` is false
    close :
        s.caller ≡ scanning
        → s.texts ≡ []
        → t ≡ record s { caller = waiting scan_error; is_closed = true }
        → Step s t
    -- `case <-ctx.Done()` of the loop
    stop_scanning : s.caller ≡ scanning → s.is_cancelled ≡ true → t ≡ leave_loop s → Step s t
    stop_sending :
        (p : StorePath) → s.caller ≡ sending p → s.is_cancelled ≡ true → t ≡ leave_loop s → Step s t
    -- the path goes over the channel
    hand_over :
        (p : StorePath) (batch : List StorePath)
        → s.caller ≡ sending p
        → s.worker ≡ collecting batch
        → t ≡ receive (batch ++ p ∷ []) s
        → Step s t
    -- the channel is closed: a batch that has begun is handled first
    see_end :
        s.worker ≡ collecting []
        → s.is_closed ≡ true
        → t ≡ record s { worker = leaving [] }
        → Step s t
    -- the channel is closed or the timer has gone off
    end_batch :
        (p : StorePath) (batch : List StorePath)
        → s.worker ≡ collecting (p ∷ batch)
        → t ≡ record s { worker = uploading; handled = s.handled ++ (p ∷ batch) ∷ [] }
        → Step s t
    -- the uploads of the batch have been started
    start_uploads : s.worker ≡ uploading → t ≡ record s { worker = collecting [] } → Step s t
    -- `case <-ctx.Done()` of `processUploads`
    drop_batch :
        (batch : List StorePath)
        → s.worker ≡ collecting batch
        → s.is_process_cancelled ≡ true
        → t ≡ record s { worker = leaving batch }
        → Step s t
    stop_uploads :
        s.worker ≡ uploading
        → s.is_process_cancelled ≡ true
        → t ≡ record s { worker = leaving [] }
        → Step s t
    -- the uploads that were started have ended
    finish :
        (batch : List StorePath)
        → s.worker ≡ leaving batch
        → t ≡ record s { worker = ended batch }
        → Step s t
    -- `<-processDone`
    return_ :
        (batch : List StorePath) (o : RunResult)
        → s.caller ≡ waiting o
        → s.worker ≡ ended batch
        → t ≡ record s { caller = returned o; is_process_cancelled = true }
        → Step s t

  pub data Reach (s : Run) : Run → Type 0 where
    here : Reach s s
    next : {t u : Run} → Reach s t → Step t u → Reach s u

unfoldable pub begin : List Bytes → Run
begin texts = record {
  texts = texts;
  caller = scanning;
  is_closed = false;
  is_cancelled = false;
  is_process_cancelled = false;
  worker = collecting [];
  handled = [];
}
