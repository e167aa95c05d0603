-- ===== src/XzWriter.antt =====
-- The writer that compresses with an xz process (internal/xzcmd/writer.go). The process and its pipe
-- are arguments, which answer by what was done with them so far.
pub mod Life
use nixcached.Prelude.{
  ℕ, Bool, true, false, List, [], ◌∷◌, ◌++◌, Option, none, some, if◌then◌else◌, is_empty, Bytes,
  codes,
}

-- What is done with the command.
pub data XzAction : Type 0 where
  pipe_failed : XzAction
  start_failed : XzAction
  started : Bytes → XzAction
  -- a write to the standard input
  input : Bytes → XzAction
  close_input : XzAction
  wait : XzAction

-- `exec.Cmd` and the pipe to it: the errors of `StdinPipe` and `Start`, the result of a write, and
-- the errors of `Close` and `Wait`.
pub record Command (E : Type 0) : Type 0 where
  pub stdin_pipe : List XzAction → Option E
  pub start : List XzAction → Option E
  pub write : List XzAction → Bytes → ℕ × Option E
  pub close_stdin : List XzAction → Option E
  pub wait_for : List XzAction → Option E

-- `Writer`: the program, whether `stdin` is set, and what was done so far.
pub record Writer : Type 0 where
  pub executable : Bytes
  pub has_stdin : Bool
  pub done : List XzAction

-- `NewWriter`, with the executable of the options, if there are any.
unfoldable pub new_writer : Option Bytes → Writer
new_writer none = record { executable = codes "xz"; has_stdin = false; done = [] }
new_writer (some executable) = record {
  executable = if is_empty executable then codes "xz" else executable;
  has_stdin = false;
  done = [];
}

abbrev pub add : Writer → XzAction → Writer
add w a = record w { done = w.done ++ a ∷ [] }

module _ {E : Type 0} (command : Command E) where
  -- The part of `init` for a writer without a process.
  unfoldable pub start_process : Writer → Writer × Option E
  start_process w = elim (command.stdin_pipe w.done) [
    | some e ↦ (add w pipe_failed, some e)
    | none ↦ elim (command.start w.done) [
      | some e ↦ (add w start_failed, some e)
      | none ↦ (record (add w (started w.executable)) { has_stdin = true }, none)
    ]
  ]

  -- `init`
  unfoldable pub xz_init : Writer → Writer × Option E
  xz_init w = if w.has_stdin then (w, none) else start_process w

  -- `Write`, from what `init` returned.
  unfoldable pub write_after : Bytes → Writer × Option E → Writer × (ℕ × Option E)
  write_after p (w, some e) = (w, (0, some e))
  write_after p (w, none) = (add w (input p), command.write w.done p)

  unfoldable pub xz_write : Writer → Bytes → Writer × (ℕ × Option E)
  xz_write w p = write_after p (xz_init w)

  -- `Close`, which panics where `stdin` is not set.
  unfoldable pub xz_close : Writer → Option (Writer × Option E)
  xz_close w =
      let closed = add w close_input in
      let error : Option E = elim (command.close_stdin w.done) [
        | some e ↦ some e
        | none ↦ command.wait_for closed.done
      ] in
      if w.has_stdin then some (add closed wait, error) else none
