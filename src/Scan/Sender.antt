-- ===== src/Scan/Sender.antt =====
-- What `send --finish` writes is what the scanner of `upload --allow-finish` delivers.
use nixcached.Prelude.{
  ℕ, ◌+◌, ◌≤◌, ◌≡◌, refl, ap, ◌∙◌, true, false, List, [], ◌∷◌, ◌++◌, Option, none, append-nil,
  append_assoc, arith, ◌==◌, length, concat, keep, keep-append, All, Bytes, contains_byte,
  has_prefix,
}
use nixcached.Send.{run_send, outgoing, inline_eof_line, newline}
use nixcached.Send.Batches.{is_sendable, lines, lines-append}
use nixcached.Send.Report.{run_send_complete}
use nixcached.Scan.{drop_cr, scan_all}
use nixcached.Scan.Lines.{is_end, lines_in, lines_of, fits, max_line}
use nixcached.Scan.Split.{lines_in-cons}
use mathlib.Core.Path.{ap₂}
use nixcached.Scan.Chunks.{lines_of-body, Delivers, scan_all-Delivers}

-- A path that goes through as it is: the send command sends it, it holds no zero byte, and it
-- does not end in a carriage return, which the scanner would take for part of the line end.
abbrev pub IsPlain : Bytes → Type 0
IsPlain p = (is_sendable p ≡ true) × (contains_byte 0 p ≡ false) × (drop_cr p ≡ p)

sendable-no_newline : (p : Bytes) → is_sendable p ≡ true → contains_byte newline p ≡ false
sendable-no_newline p h = ground arith

sendable-length : (p : Bytes) → is_sendable p ≡ true → length p ≤ 511
sendable-length p h = ground arith

contains_byte-cons :
    (c : ℕ) (p : Bytes)
    → contains_byte newline (c ∷ p) ≡ false
    → (c == 10 ≡ false) × (contains_byte newline p ≡ false)
unfolding contains_byte
contains_byte-cons c p h = ground arith

lines_in-line :
    (p cur rest : Bytes)
    → contains_byte newline p ≡ false
    → lines_in cur (p ++ newline ∷ rest) ≡ drop_cr (cur ++ p) ∷ lines_of rest
lines_in-line [] cur rest h = lines_in-cons cur newline rest ∙ rw append-nil
lines_in-line (c ∷ p) cur rest h =
    let (n, g) = contains_byte-cons c p h in
    lines_in-cons cur c (p ++ newline ∷ rest)
    ∙ rw n (
        lines_in-line p (cur ++ c ∷ []) rest g
        ∙ ap (λ l. drop_cr l ∷ lines_of rest) (append_assoc cur (c ∷ []) p))

not_end : (p rest : Bytes) → contains_byte 0 p ≡ false → is_end (p ++ newline ∷ rest) ≡ false
unfolding contains_byte has_prefix
not_end [] rest h = refl
not_end (c ∷ p) rest h = ground arith

fits-line :
    (p rest : Bytes) (n : ℕ)
    → n + length p ≤ max_line
    → contains_byte newline p ≡ false
    → fits 0 rest ≡ true
    → fits n (p ++ newline ∷ rest) ≡ true
unfolding fits
fits-line [] rest n h k f = f
fits-line (c ∷ p) rest n h k f =
    let (m, g) = contains_byte-cons c p k in rw m (ground (arith, fits-line p rest (n + 1)))

lines_of-lines :
    (ps : List Bytes) (rest : Bytes)
    → All IsPlain ps
    → lines_of (lines ps ++ rest) ≡ ps ++ lines_of rest
lines_of-lines [] rest h = refl
lines_of-lines (p ∷ ps) rest ((s, z, d), h) =
    ap lines_of (append_assoc p (newline ∷ lines ps) rest)
    ∙ lines_of-body (p ++ newline ∷ (lines ps ++ rest)) (not_end p (lines ps ++ rest) z)
    ∙ lines_in-line p [] (lines ps ++ rest) (sendable-no_newline p s)
    ∙ ap₂ (λ q qs. q ∷ qs) d (lines_of-lines ps rest h)

fits-lines :
    (ps : List Bytes) (rest : Bytes)
    → All IsPlain ps
    → fits 0 rest ≡ true
    → fits 0 (lines ps ++ rest) ≡ true
fits-lines [] rest h f = f
fits-lines (p ∷ ps) rest ((s, z, d), h) f = rw (append_assoc p (newline ∷ lines ps) rest) (
    fits-line p (lines ps ++ rest) 0 (omega (arith, sendable-length p s)) (sendable-no_newline p s)
      (fits-lines ps rest h f))

keep-plain : (ps : List Bytes) → All IsPlain ps → keep is_sendable ps ≡ ps
keep-plain [] h = refl
keep-plain (p ∷ ps) ((s, z, d), h) = rw s (ap (λ l. p ∷ l) (keep-plain ps h))

lines_of-mark : (rest : Bytes) → lines_of (inline_eof_line ++ newline ∷ rest) ≡ []
unfolding lines_of has_prefix
lines_of-mark rest = refl

sent_text :
    (ps : List Bytes)
    → All IsPlain ps
    → lines (keep is_sendable (outgoing true ps)) ≡ lines ps ++ (inline_eof_line ++ newline ∷ [])
unfolding outgoing contains_byte
sent_text ps h =
    rw (keep-append is_sendable ps (inline_eof_line ∷ []), keep-plain ps h)
      (lines-append ps (inline_eof_line ∷ []))

-- The paths that `send --finish` takes, if they are plain and no write fails, are what an upload
-- that allows it scans, possibly with one empty token behind them. This holds however the pipe
-- cuts the bytes into reads, and whatever comes behind the end mark, if it has no overlong line.
pub scan_all-run_send :
    {E : Type 0} (write : List Bytes → Bytes → Option E)
    → ((w : List Bytes) (b : Bytes) → write w b ≡ none)
    → (ps chunks : List Bytes) (later : Bytes) → All IsPlain ps
    → fits 0 later ≡ true
    → concat chunks ≡ concat (run_send none write none (outgoing true ps)).written ++ later
    → Delivers (scan_all chunks) ps
scan_all-run_send write fine ps chunks later plain f e =
    let text : concat chunks ≡ lines ps ++ (inline_eof_line ++ newline ∷ later) =
      e
      ∙ ap (λ l. l ++ later)
          ((run_send_complete write fine (outgoing true ps)).0 ∙ sent_text ps plain)
      ∙ append_assoc (lines ps) (inline_eof_line ++ newline ∷ []) later in
    let whole : lines_of (concat chunks) ≡ ps =
      ap lines_of text
      ∙ lines_of-lines ps (inline_eof_line ++ newline ∷ later) plain
      ∙ ap (λ l. ps ++ l) (lines_of-mark later)
      ∙ append-nil ps in
    rw whole at (
      scan_all-Delivers chunks (
        rw text (
          fits-lines ps (inline_eof_line ++ newline ∷ later) plain
            (fits-line inline_eof_line later 0 (omega arith) (unfold contains_byte in refl) f))))
