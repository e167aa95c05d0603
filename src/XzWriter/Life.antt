-- ===== src/XzWriter/Life.antt =====
-- The life of an xz writer: one process, which gets every write from its start on.
use nixcached.Prelude.{
  ℕ, suc, ◌+◌, ◌≡◌, refl, ap, ◌∙◌, arith, true, false, List, [], ◌∷◌, ◌++◌, append-nil,
  append_assoc, Option, none, some, Option-cases, ◌⊎◌, inl, inr, Bytes,
}
use nixcached.XzWriter.{
  XzAction, pipe_failed, start_failed, started, input, close_input, wait, Command, Writer,
  new_writer, add, xz_init, start_process, write_after, xz_write, xz_close,
}

-- The processes that were started.
abbrev pub starts : List XzAction → ℕ
starts [] = 0
starts (started exe ∷ xs) = suc (starts xs)
starts (a ∷ xs) = starts xs

-- The writes to the standard input.
abbrev pub inputs : List XzAction → List Bytes
inputs [] = []
inputs (input p ∷ xs) = p ∷ inputs xs
inputs (a ∷ xs) = inputs xs

starts-append : (xs ys : List XzAction) → starts (xs ++ ys) ≡ starts xs + starts ys
starts-append [] ys = omega arith
starts-append (started exe ∷ xs) ys = omega (arith, starts-append xs ys)
starts-append (pipe_failed ∷ xs) ys = starts-append xs ys
starts-append (start_failed ∷ xs) ys = starts-append xs ys
starts-append (input p ∷ xs) ys = starts-append xs ys
starts-append (close_input ∷ xs) ys = starts-append xs ys
starts-append (wait ∷ xs) ys = starts-append xs ys

inputs-append : (xs ys : List XzAction) → inputs (xs ++ ys) ≡ inputs xs ++ inputs ys
inputs-append [] ys = refl
inputs-append (input p ∷ xs) ys = ap (λ ps. p ∷ ps) (inputs-append xs ys)
inputs-append (started exe ∷ xs) ys = inputs-append xs ys
inputs-append (pipe_failed ∷ xs) ys = inputs-append xs ys
inputs-append (start_failed ∷ xs) ys = inputs-append xs ys
inputs-append (close_input ∷ xs) ys = inputs-append xs ys
inputs-append (wait ∷ xs) ys = inputs-append xs ys

-- What an action adds to both.
starts-add :
    (w : Writer) (a : XzAction) (n : ℕ)
    → starts w.done + starts (a ∷ []) ≡ n
    → starts (add w a).done ≡ n
starts-add w a n h = starts-append w.done (a ∷ []) ∙ h

inputs-add :
    (w : Writer) (a : XzAction) (ps : List Bytes)
    → inputs w.done ≡ ps
    → inputs (add w a).done ≡ ps ++ inputs (a ∷ [])
inputs-add w a ps h = inputs-append w.done (a ∷ []) ∙ ap (λ qs. qs ++ inputs (a ∷ [])) h

module _ {E : Type 0} (command : Command E) where
  -- The writer behind some writes, whatever they returned.
  unfoldable pub after_writes : Writer → List Bytes → Writer
  after_writes w [] = w
  after_writes w (p ∷ ps) = after_writes (xz_write command w p).0 ps

  -- No process has been started, and one has.
  abbrev Idle : Writer → Type 0
  Idle w = (w.has_stdin ≡ false) × (starts w.done ≡ 0) × (inputs w.done ≡ [])

  abbrev Running : Writer → List Bytes → Type 0
  Running w ps = (w.has_stdin ≡ true) × (starts w.done ≡ 1) × (inputs w.done ≡ ps)

  Running-input :
      (w : Writer) (p : Bytes) (ps : List Bytes)
      → Running w ps
      → Running (add w (input p)) (ps ++ p ∷ [])
  Running-input w p ps (h, s, i) =
      (h, starts-add w (input p) 1 (omega (arith, s)), inputs-add w (input p) ps i)

  xz_init-open : (w : Writer) → w.has_stdin ≡ true → xz_init command w ≡ (w, none)
  unfolding xz_init
  xz_init-open w h = rw h refl

  xz_write-ready :
      (w w' : Writer) (p : Bytes)
      → xz_init command w ≡ (w', none)
      → (xz_write command w p).0 ≡ add w' (input p)
  unfolding xz_write write_after
  xz_write-ready w w' p h = ap (λ r. (write_after command p r).0) h

  xz_write-failed :
      (w w' : Writer) (p : Bytes) (e : E)
      → xz_init command w ≡ (w', some e)
      → (xz_write command w p).0 ≡ w'
  unfolding xz_write write_after
  xz_write-failed w w' p e h = ap (λ r. (write_after command p r).0) h

  xz_write-Running :
      (w : Writer) (p : Bytes) (ps : List Bytes)
      → Running w ps
      → Running (xz_write command w p).0 (ps ++ p ∷ [])
  xz_write-Running w p ps (h, s, i) =
      rw (xz_write-ready w w p (xz_init-open w h)) (Running-input w p ps (h, s, i))

  -- The writer with a process that has just been started.
  abbrev begun : Writer → Writer
  begun w = record (add w (started w.executable)) { has_stdin = true }

  xz_init-start : (w : Writer) → w.has_stdin ≡ false → xz_init command w ≡ start_process command w
  unfolding xz_init
  xz_init-start w h = rw h refl

  xz_init-cases :
      (w : Writer)
      → w.has_stdin ≡ false
      → ((e : E) × (xz_init command w ≡ (add w pipe_failed, some e)))
        ⊎ (((e : E) × (xz_init command w ≡ (add w start_failed, some e)))
            ⊎ (xz_init command w ≡ (begun w, none)))
  unfolding start_process
  xz_init-cases w h = elim (Option-cases (command.stdin_pipe w.done)) [
    | inr (e, a) ↦ inl (e, xz_init-start w h ∙ rw (a, start_process) refl)
    | inl a ↦ elim (Option-cases (command.start w.done)) [
      | inr (e, b) ↦ inr (inl (e, xz_init-start w h ∙ rw (a, b, start_process) refl))
      | inl b ↦ inr (inr (xz_init-start w h ∙ rw (a, b, start_process) refl))
    ]
  ]

  xz_write-Idle :
      (w : Writer) (p : Bytes)
      → Idle w
      → Idle (xz_write command w p).0 ⊎ Running (xz_write command w p).0 (p ∷ [])
  xz_write-Idle w p (h, s, i) = elim (xz_init-cases w h) [
    | inl (e, q) ↦ inl (
        rw (xz_write-failed w (add w pipe_failed) p e q)
          (h, starts-add w pipe_failed 0 (omega (arith, s)), inputs-add w pipe_failed [] i))
    | inr (inl (e, q)) ↦ inl (
        rw (xz_write-failed w (add w start_failed) p e q)
          (h, starts-add w start_failed 0 (omega (arith, s)), inputs-add w start_failed [] i))
    | inr (inr q) ↦ inr (
        rw (xz_write-ready w (begun w) p q) (
          Running-input (begun w) p [] (
            refl,
            starts-add w (started w.executable) 1 (omega (arith, s)),
            inputs-add w (started w.executable) [] i,
          )))
  ]

  Running-all :
      (w : Writer) (ps qs : List Bytes) → Running w qs → Running (after_writes w ps) (qs ++ ps)
  unfolding after_writes
  Running-all w [] qs r = rw (append-nil qs) r
  Running-all w (p ∷ ps) qs r =
      rw (append_assoc qs (p ∷ []) ps) at
        (Running-all (xz_write command w p).0 ps (qs ++ p ∷ []) (xz_write-Running w p qs r))

  -- The writes before the process, and those that it gets.
  abbrev pub Splits : Writer → List Bytes → Type 0
  Splits w ps =
      Idle w
      ⊎ ((qs : List Bytes) × (p : Bytes) × (rs : List Bytes) × (ps ≡ qs ++ p ∷ rs)
          × Running w (p ∷ rs))

  Idle-all : (w : Writer) (ps : List Bytes) → Idle w → Splits (after_writes w ps) ps
  unfolding after_writes
  Idle-all w [] r = inl r
  Idle-all w (p ∷ ps) r = elim (xz_write-Idle w p r) [
    | inr q ↦ inr ([], p, ps, refl, Running-all (xz_write command w p).0 ps (p ∷ []) q)
    | inl q ↦ elim (Idle-all (xz_write command w p).0 ps q) [
      | inl i ↦ inl i
      | inr (qs, x, rs, e, run) ↦ inr (p ∷ qs, x, rs, ap (λ l. p ∷ l) e, run)
    ]
  ]

  new-Idle : (opts : Option Bytes) → Idle (new_writer opts)
  unfolding new_writer
  new-Idle none = (refl, refl, refl)
  new-Idle (some exe) = (refl, refl, refl)

  xz_close-Idle : (w : Writer) → w.has_stdin ≡ false → xz_close command w ≡ none
  unfolding xz_close
  xz_close-Idle w h = rw h refl

  close_error : Writer → Option E
  close_error w = elim (command.close_stdin w.done) [
    | some e ↦ some e
    | none ↦ command.wait_for (add w close_input).done
  ]

  xz_close-Running :
      (w : Writer)
      → w.has_stdin ≡ true
      → xz_close command w ≡ some (add (add w close_input) wait, close_error w)
  unfolding xz_close close_error
  xz_close-Running w h = rw h refl

  -- Behind any writes to a new writer, whatever the command answers, either no process was started,
  -- nothing was written to one, and `Close` panics; or one process was started, it got all the
  -- writes from some point on in their order and without a gap, and `Close` closes its input and
  -- then waits for it.
  pub after_writes-xz_close :
      (opts : Option Bytes) (ps : List Bytes)
      → ((starts (after_writes (new_writer opts) ps).done ≡ 0)
          × (inputs (after_writes (new_writer opts) ps).done ≡ [])
          × (xz_close command (after_writes (new_writer opts) ps) ≡ none))
        ⊎ ((qs : List Bytes) × (p : Bytes) × (rs : List Bytes) × (e : Option E) × (ps
              ≡ qs ++ p ∷ rs)
            × (starts (after_writes (new_writer opts) ps).done ≡ 1)
            × (inputs (after_writes (new_writer opts) ps).done ≡ p ∷ rs)
            × (xz_close command (after_writes (new_writer opts) ps)
                ≡ some (add (add (after_writes (new_writer opts) ps) close_input) wait, e)))
  after_writes-xz_close opts ps =
      let w = after_writes (new_writer opts) ps in
      elim (Idle-all (new_writer opts) ps (new-Idle opts)) [
        | inl (h, s, i) ↦ inl (s, i, xz_close-Idle w h)
        | inr (qs, p, rs, q, (h, s, i)) ↦
            inr (qs, p, rs, close_error w, q, s, i, xz_close-Running w h)
      ]
