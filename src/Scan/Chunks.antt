-- ===== src/Scan/Chunks.antt =====
-- However the input is cut into chunks, the scanner delivers its lines.
use nixcached.Prelude.{
  ℕ, zero, suc, ◌<◌, ◌≡◌, ◌≢◌, refl, sym, ap, ◌∙◌, true, false, ◌⊎◌, List, [], ◌∷◌, ◌++◌, none,
  some, append-nil, append_assoc, arith, if◌then◌else◌, length, is_empty, take, drop, concat, Bytes,
  has_prefix, leb, is_positive, Bool-cases, inl, inr,
}
use nixcached.Scan.{
  match_inline_eof, index_newline, drop_cr, scan_lines_with_eof, ScanResult, stop, emit, dispatch,
  scan_end, scan, scan_all, max_token_size,
}
use nixcached.Scan.Lines.{is_end, lines_in, lines_of, fits}
use nixcached.Scan.Split.{
  positive-is_end, neither-is_end, not_positive-is_end, negative-short, lines_in-none,
  lines_in-some, index_newline-length, drop-length, fits-none, fits-some, split_rule,
  split_end_rule,
}

-- A scan that delivers these lines, with or without an empty token for the end mark, and no error.
abbrev pub Delivers : ScanResult → List Bytes → Type 0
Delivers r ls = ((r.tokens ≡ ls) ⊎ (r.tokens ≡ ls ++ [] ∷ [])) × (r.too_long ≡ false)

emit-Delivers :
    (t : Bytes) (r : ScanResult) (ls : List Bytes) → Delivers r ls → Delivers (emit t r) (t ∷ ls)
emit-Delivers t r ls (inl e, h) = (inl (ap (λ l. t ∷ l) e), h)
emit-Delivers t r ls (inr e, h) = (inr (ap (λ l. t ∷ l) e), h)

lines_of-end : (s : Bytes) → is_end s ≡ true → lines_of s ≡ []
unfolding lines_of
lines_of-end s h = rw h

pub lines_of-body : (s : Bytes) → is_end s ≡ false → lines_of s ≡ lines_in [] s
unfolding lines_of
lines_of-body s h = rw h

mark-Delivers : (s : Bytes) → is_end s ≡ true → Delivers (emit [] stop) (lines_of s)
mark-Delivers s h = rw (lines_of-end s h) (inr refl, refl)

-- A token, whether or not an end mark stands behind it.
token-Delivers :
    (buf more : Bytes) (i : ℕ) (again other : ScanResult)
    → is_end (buf ++ more) ≡ false
    → index_newline buf ≡ some i
    → Delivers again (lines_of (drop (suc i) buf ++ more))
    → Delivers
        (dispatch
          (record {
            advance = suc i;
            token = some (drop_cr (take i buf));
            final = is_positive (match_inline_eof (drop (suc i) buf));
          })
          again
          other)
        (lines_of (buf ++ more))
token-Delivers buf more i again other m o d =
    rw (lines_of-body (buf ++ more) m, lines_in-some buf [] more i o)
      (elim (Bool-cases (is_positive (match_inline_eof (drop (suc i) buf)))) [
        | inl p ↦
            rw
              (
                p,
                lines_of-end (drop (suc i) buf ++ more) (positive-is_end (drop (suc i) buf) more p),
              )
              (inl refl, refl)
        | inr p ↦ rw p (emit-Delivers (drop_cr (take i buf)) again _ d)
      ])

lines_in-last : (s : Bytes) → s ≢ [] → lines_in s [] ≡ drop_cr s ∷ []
unfolding lines_in
lines_in-last [] n = absurd (n refl)
lines_in-last (c ∷ s) n = refl

lines_of-nil : lines_of [] ≡ []
unfolding lines_of lines_in has_prefix
lines_of-nil = refl

lines_of-last :
    (s : Bytes) → s ≢ [] → is_end s ≡ false → index_newline s ≡ none → lines_of s ≡ drop_cr s ∷ []
lines_of-last s n e o =
    lines_of-body s e
    ∙ ap (lines_in []) (sym (append-nil s))
    ∙ lines_in-none s [] [] o
    ∙ lines_in-last s n

length-pos : (s : Bytes) → s ≢ [] → 0 < length s
length-pos [] n = absurd (n refl)
length-pos (c ∷ s) n = omega arith

scan_end-Delivers :
    (fuel : ℕ) (buf : Bytes) → length buf < fuel → Delivers (scan_end fuel buf) (lines_of buf)
unfolding scan_end
scan_end-Delivers zero buf h = absurd (omega arith)
scan_end-Delivers (suc fuel) buf h =
    split_end_rule
      (λ r. Delivers (dispatch r (scan_end fuel (drop r.advance buf)) stop) (lines_of buf)) buf
      (λ p. rw append-nil at (mark-Delivers (buf ++ []) (positive-is_end buf [] p)))
      (λ e. rw (e, lines_of-nil) (inl refl, refl))
      (λ n p o.
        rw (lines_of-last buf n (not_positive-is_end buf p) o, drop-length)
          (emit-Delivers (drop_cr buf) (scan_end fuel []) []
            (rw lines_of-nil at (scan_end-Delivers fuel [] (omega (arith, length-pos buf n))))))
      (λ i p o. rw append-nil at (
        token-Delivers buf [] i (scan_end fuel (drop (suc i) buf)) stop
          (rw append-nil (not_positive-is_end buf p)) o
          (rw append-nil (
            scan_end-Delivers fuel (drop (suc i) buf)
              (omega (arith, index_newline-length buf i o))))))

-- Reading on is possible, since what waits in the buffer is shorter than the buffer.
reads_on :
    (buf more : Bytes) (next : ScanResult)
    → length buf < max_token_size
    → Delivers next (lines_of (buf ++ more))
    → Delivers
        (if leb max_token_size (length buf) then record { tokens = []; too_long = true } else next)
        (lines_of (buf ++ more))
reads_on buf more next h d = rw (short (length buf) h) d
  where
    short : (n : ℕ) → n < max_token_size → leb max_token_size n ≡ false
    short n h = ground arith

abbrev read_on : Bytes → ScanResult → ScanResult
read_on buf next =
    if leb max_token_size (length buf) then record { tokens = []; too_long = true } else next

-- One round of the loop, from what the scan delivers behind a token and behind the next chunk.
round-Delivers :
    (buf more : Bytes) (again : ℕ → ScanResult) (next : ScanResult)
    → fits 0 (buf ++ more) ≡ true
    → ((i : ℕ)
        → index_newline buf ≡ some i
        → fits 0 (drop (suc i) buf ++ more) ≡ true
        → Delivers (again (suc i)) (lines_of (drop (suc i) buf ++ more)))
    → Delivers next (lines_of (buf ++ more))
    → Delivers
        (let r = scan_lines_with_eof buf false in
          if is_empty buf
          then read_on buf next
          else dispatch r (again r.advance) (read_on buf next))
        (lines_of (buf ++ more))
round-Delivers [] more again next f behind d = d
round-Delivers (c ∷ s) more again next f behind d =
    split_rule
      (λ r. Delivers (dispatch r (again r.advance) (read_on buf next)) (lines_of (buf ++ more))) buf
      (λ p. mark-Delivers (buf ++ more) (positive-is_end buf more p))
      (λ n. reads_on buf more next (omega (arith, negative-short buf n)) d)
      (λ o. reads_on buf more next (omega (arith, fits-none buf more 0 o f (omega arith))) d)
      (λ i o n.
        reads_on buf more next
          (omega (
            arith,
            index_newline-length buf i o,
            negative-short (drop (suc i) buf) n,
            (fits-some buf more 0 i o f (omega arith)).0,
          ))
          d)
      (λ i p n o.
        token-Delivers buf more i (again (suc i)) (read_on buf next)
          (neither-is_end buf more (λ e. cc e) p n) o
          (behind i o (fits-some buf more 0 i o f (omega arith)).1))
  where
    buf : Bytes
    buf = c ∷ s

scan-Delivers :
    (chunks : List Bytes) (fuel : ℕ) (buf : Bytes)
    → length buf < fuel
    → fits 0 (buf ++ concat chunks) ≡ true
    → Delivers (scan chunks fuel buf) (lines_of (buf ++ concat chunks))
unfolding scan
scan-Delivers [] zero buf h f = absurd (omega arith)
scan-Delivers (chunk ∷ chunks) zero buf h f = absurd (omega arith)
scan-Delivers [] (suc fuel) buf h f =
    round-Delivers buf [] (λ a. scan [] fuel (drop a buf)) (scan_end (suc (length buf)) buf) f
      (λ i o g.
        scan-Delivers [] fuel (drop (suc i) buf) (omega (arith, index_newline-length buf i o)) g)
      (rw append-nil (scan_end-Delivers (suc (length buf)) buf (omega arith)))
scan-Delivers (chunk ∷ chunks) (suc fuel) buf h f =
    round-Delivers buf (chunk ++ concat chunks) (λ a. scan (chunk ∷ chunks) fuel (drop a buf))
      (scan chunks (suc (length (buf ++ chunk))) (buf ++ chunk)) f
      (λ i o g.
        scan-Delivers (chunk ∷ chunks) fuel (drop (suc i) buf)
          (omega (arith, index_newline-length buf i o)) g)
      (rw (append_assoc buf chunk (concat chunks)) at (
        scan-Delivers chunks (suc (length (buf ++ chunk))) (buf ++ chunk) (omega arith)
          (rw append_assoc f)))

-- However an input with no overlong line is cut into chunks, a scan delivers its lines up to the
-- end mark, possibly with one empty token behind them, and no error.
pub scan_all-Delivers :
    (chunks : List Bytes)
    → fits 0 (concat chunks) ≡ true
    → Delivers (scan_all chunks) (lines_of (concat chunks))
unfolding scan_all
scan_all-Delivers chunks f = scan-Delivers chunks 1 [] (omega arith) f
