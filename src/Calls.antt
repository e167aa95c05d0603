-- ===== src/Calls.antt =====
-- `openFileCtx` and `writeCtx` (main.go): a system call in a goroutine of its own, which a caller
-- waits for until its context ends. Both are one step relation, for results of the type `R`: the file
-- and the error, or the count and the error; what they do to files is a parameter of it. The channel has
-- no buffer, so that a result is sent when it is received.
pub mod Owned
use nixcached.Prelude.{
  ℕ, ◌≡◌, Bool, true, false, List, [], ◌∷◌, ◌++◌, Option, none, some, ◌==◌, if◌then◌else◌,
}

-- The files that the system call has opened, by their descriptors, and what the goroutine does to the
-- open files with a result that nobody takes.
pub record CallKind (R : Type 0) : Type 0 where
  pub opens : R → List ℕ
  pub drop_result : R → List ℕ → List ℕ

-- `f.Close()`
unfoldable pub close_descriptor : ℕ → List ℕ → List ℕ
close_descriptor f [] = []
close_descriptor f (g ∷ files) =
    let rest = g ∷ close_descriptor f files in if g == f then files else rest

abbrev pub FileResult : Type 0 → Type 0
FileResult E = Option ℕ × Option E

abbrev pub files_of : {E : Type 0} → FileResult E → List ℕ
files_of (none, e) = []
files_of (some f, e) = f ∷ []

-- `if r.f != nil { r.f.Close() }`
unfoldable pub close_result : {E : Type 0} → FileResult E → List ℕ → List ℕ
unfolding close_descriptor
close_result (none, e) files = files
close_result (some f, e) files = close_descriptor f files

-- `openFileCtx` and `writeCtx`
abbrev pub open_file_ctx : (E : Type 0) → CallKind (FileResult E)
open_file_ctx E = record { opens = files_of; drop_result = close_result }

abbrev pub write_ctx : (E : Type 0) → CallKind (ℕ × Option E)
write_ctx E = record { opens = λ r. []; drop_result = λ r files. files }

pub data Worker (R : Type 0) : Type 0 where
  calling : Worker R
  sending : R → Worker R
  exited : Worker R

pub data Caller (R : Type 0) : Type 0 where
  waiting : Caller R
  got : R → Caller R
  abandoned : Caller R

-- `open_files` are the files that the call has opened and nobody has closed.
pub record Call (R : Type 0) : Type 0 where
  pub worker : Worker R
  pub caller : Caller R
  pub cancelled : Bool
  pub open_files : List ℕ

module _ {R : Type 0} (k : CallKind R) where
  pub data Step (s : Call R) (t : Call R) : Type 0 where
    -- the context ends
    cancel : t ≡ record s { cancelled = true } → Step s t
    -- the system call returns
    called :
        (r : R)
        → s.worker ≡ calling
        → t ≡ record s { worker = sending r; open_files = k.opens r ++ s.open_files }
        → Step s t
    -- `c <- r` with `r := <-c`
    hand_over :
        (r : R)
        → s.worker ≡ sending r
        → s.caller ≡ waiting
        → t ≡ record s { worker = exited; caller = got r }
        → Step s t
    -- `<-done` in the worker
    drop_ :
        (r : R)
        → s.worker ≡ sending r
        → s.cancelled ≡ true
        → t ≡ record s { worker = exited; open_files = k.drop_result r s.open_files }
        → Step s t
    -- `<-done` in the caller
    abandon :
        s.caller ≡ waiting → s.cancelled ≡ true → t ≡ record s { caller = abandoned } → Step s t

  pub data Reach (s : Call R) : Call R → Type 0 where
    here : Reach s s
    next : {t u : Call R} → Reach s t → Step t u → Reach s u

unfoldable pub begin : (R : Type 0) → Call R
begin R = record { worker = calling; caller = waiting; cancelled = false; open_files = [] }
