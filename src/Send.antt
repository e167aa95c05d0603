-- ===== src/Send.antt =====
-- The send command (send.go): its argument check, the inline end mark of `--finish`, and `runSend`.
-- The file is the list of chunks that `Write` took without an error. What `Write` returns is a
-- parameter that may depend on the chunks before; so are the results of opening and closing.
pub mod Batches
pub mod Report
use nixcached.Prelude.{
  ℕ, zero, suc, ◌+◌, Bool, true, false, ◌&&◌, not, List, [], ◌∷◌, ◌++◌, Option, none, some, ltb,
  ◌==◌, if◌then◌else◌, length, is_empty, Bytes, contains_byte,
}

abbrev pub pipe_buf_size : ℕ
pipe_buf_size = 512

abbrev pub newline : ℕ
newline = 10

-- `inlineEOFLine` (upload.go)
abbrev pub inline_eof_line : Bytes
inline_eof_line = 0 ∷ []

-- How the loop of `runSend` ends, with the chunks written: by itself, with a count of skipped
-- paths, or early with the error of a `Write`.
pub data Sent (E : Type 0) : Type 0 where
  finished : List Bytes → ℕ → Sent E
  failed : List Bytes → E → Sent E

pub data SendError (E : Type 0) : Type 0 where
  io : E → SendError E
  unsent : ℕ → SendError E

pub record SendResult (E : Type 0) : Type 0 where
  pub error : Option (SendError E)
  pub written : List Bytes

module _ {E : Type 0} (write : List Bytes → Bytes → Option E) where
  -- `writeCtx(ctx, f, buf)` and the code behind it.
  unfoldable pub flush : Bytes → List Bytes → (List Bytes → Sent E) → Sent E
  flush buf written continue = elim (write written buf) [
    | some e ↦ failed written e
    | none ↦ continue (written ++ buf ∷ [])
  ]

  -- The loop over the paths, and the last write.
  unfoldable pub send_loop : List Bytes → Bytes → ℕ → List Bytes → Sent E
  unfolding flush
  send_loop [] [] nfailed written = finished written nfailed
  send_loop [] (c ∷ buf) nfailed written = flush (c ∷ buf) written (λ w. finished w nfailed)
  send_loop (p ∷ ps) buf nfailed written =
      let skip = send_loop ps buf (nfailed + 1) written in
      let line_size = length p + 1 in
      let line = p ++ newline ∷ [] in
      let after_flush = flush buf written (λ w. send_loop ps line nfailed w) in
      let append = send_loop ps (buf ++ line) nfailed written in
      if contains_byte newline p
      then skip
      else if ltb pipe_buf_size line_size
      then skip
      else if ltb pipe_buf_size (length buf + line_size)
      then after_flush
      else append

-- The test of `nfailed`, which stands last.
unfoldable pub report : {E : Type 0} → ℕ → Option (SendError E)
report zero = none
report (suc n) = some (unsent (suc n))

-- The deferred `Close`: its error counts only where there is no other.
unfoldable pub close_file : {E : Type 0} → Option E → SendResult E → SendResult E
close_file none r = r
close_file (some e) r = elim r.error [
  | none ↦ record r { error = some (io e) }
  | some other ↦ record r { error = some other }
]

unfoldable pub settle : {E : Type 0} → Sent E → SendResult E
unfolding report
settle (finished w n) = record { error = report n; written = w }
settle (failed w e) = record { error = some (io e); written = w }

unfoldable pub run_send :
    {E : Type 0} → Option E → (List Bytes → Bytes → Option E) → Option E → List Bytes → SendResult E
unfolding send_loop settle close_file
run_send (some e) write close_error ps = record { error = some (io e); written = [] }
run_send none write close_error ps = close_file close_error (settle (send_loop write ps [] 0 []))

-- What `c.Args` accepts.
unfoldable pub no_nul : List Bytes → Bool
no_nul [] = true
no_nul (arg ∷ args) = not (contains_byte 0 arg) && no_nul args

unfoldable pub check_args : Bool → List Bytes → Bool
unfolding no_nul
check_args finish args = (if finish then true else ltb 0 (length args)) && no_nul args

-- The lines that `c.RunE` hands to `runSend`.
unfoldable pub outgoing : Bool → List Bytes → List Bytes
outgoing finish args = if finish then args ++ inline_eof_line ∷ [] else args

-- How the command ends before `runSend`, or what it calls it with.
pub data SendStart : Type 0 where
  bad_args : SendStart
  missing_output : SendStart
  sends : Bytes → List Bytes → SendStart

unfoldable pub send_command : Bytes → Bool → List Bytes → SendStart
send_command output finish args =
    let started = if is_empty output then missing_output else sends output (outgoing finish args) in
    if check_args finish args then started else bad_args
