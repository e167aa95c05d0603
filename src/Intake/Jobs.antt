-- ===== src/Intake/Jobs.antt =====
-- The uploads that `processUploads` (upload.go) runs at the same time, as a step relation: the
-- semaphore `sem`, the goroutines that hold it, and the deferred loop that fills it. A step is what the
-- goroutine of `processUploads` or one upload does at a channel operation.
pub mod Bounds
pub mod Progress
use nixcached.Prelude.{ℕ, suc, ◌+◌, ◌<◌, ◌≡◌, Bool, true, false, List, [], ◌∷◌, ◌++◌, length}

-- The infos to come, the uploads that run and those that have ended, the places that the deferred loop
-- has taken, whether the context has ended, whether the loop over the batches has been left, and
-- whether the function has returned.
pub record Jobs (J : Type 0) : Type 0 where
  pub waiting : List J
  pub running : List J
  pub done : List J
  pub filled : ℕ
  pub cancelled : Bool
  pub stopped : Bool
  pub returned : Bool

module _ {J : Type 0} where
  -- `len(sem)`
  abbrev pub taken : Jobs J → ℕ
  taken s = length s.running + s.filled

  pub data Step (limit : ℕ) (s : Jobs J) (t : Jobs J) : Type 0 where
    -- `sem <- struct{}{}` for an info of the set
    start :
        (x : J) (xs : List J)
        → s.stopped ≡ false
        → s.waiting ≡ x ∷ xs
        → taken s < limit
        → t ≡ record s { waiting = xs; running = x ∷ s.running }
        → Step limit s t
    -- an upload returns, `<-sem`
    finish :
        (xs ys : List J) (x : J)
        → s.running ≡ xs ++ x ∷ ys
        → t ≡ record s { running = xs ++ ys; done = x ∷ s.done }
        → Step limit s t
    -- the channel of store paths is closed and no info is left
    stop : s.stopped ≡ false → s.waiting ≡ [] → t ≡ record s { stopped = true } → Step limit s t
    -- the context ends
    end_context : s.cancelled ≡ false → t ≡ record s { cancelled = true } → Step limit s t
    -- `case <-ctx.Done()`
    cancel :
        s.stopped ≡ false → s.cancelled ≡ true → t ≡ record s { stopped = true } → Step limit s t
    -- a turn of the deferred loop
    fill :
        s.stopped ≡ true
        → s.filled < limit
        → taken s < limit
        → t ≡ record s { filled = suc s.filled }
        → Step limit s t
    -- the deferred loop ends
    return_ :
        s.stopped ≡ true
        → s.returned ≡ false
        → s.filled ≡ limit
        → t ≡ record s { returned = true }
        → Step limit s t

  pub data Reach (limit : ℕ) (s : Jobs J) : Jobs J → Type 0 where
    here : Reach limit s s
    next : {t u : Jobs J} → Reach limit s t → Step limit t u → Reach limit s u

  unfoldable pub begin : List J → Jobs J
  begin jobs = record {
    waiting = jobs;
    running = [];
    done = [];
    filled = 0;
    cancelled = false;
    stopped = false;
    returned = false;
  }
