-- ===== src/Scan.antt =====
-- The input of the upload command (upload.go): `matchInlineEOF`, the split function
-- `scanLinesWithEOF`, and `bufio.Scanner`, which calls it on what it has read so far.
-- `bufio.ScanLines` and the scanner's loop are written out as in the Go library.
pub mod Lines
pub mod Split
pub mod Chunks
pub mod Sender
use nixcached.Prelude.{
  ℕ, zero, suc, ◌+◌, Bool, true, false, ◌&&◌, not, List, [], ◌∷◌, ◌++◌, Option, none, some, leb,
  ◌==◌, if◌then◌else◌, length, is_empty, take, drop, Bytes, ℤ, pos, negsuc, is_positive,
  is_negative,
}

match_after_cr : Bytes → ℤ
match_after_cr [] = negsuc 0
match_after_cr (c ∷ s) = if c == 10 then pos 3 else pos 0

match_after_nul : Bytes → ℤ
match_after_nul [] = negsuc 0
match_after_nul (c ∷ s) = if c == 10 then pos 2 else if c == 13 then match_after_cr s else pos 0

-- `matchInlineEOF`: the length of the end mark at the front, -1 if more input may complete one,
-- and 0 if there is none.
unfoldable pub match_inline_eof : Bytes → ℤ
unfolding match_after_nul match_after_cr
match_inline_eof [] = pos 0
match_inline_eof (c ∷ s) = if c == 0 then match_after_nul s else pos 0

-- `bytes.IndexByte(data, '\n')`, with `none` for -1.
unfoldable pub index_newline : Bytes → Option ℕ
index_newline [] = none
index_newline (c ∷ s) =
    let rest : Option ℕ = elim (index_newline s) [ none ↦ none | some i ↦ some (suc i) ] in
    if c == 10 then some 0 else rest

-- `dropCR`
unfoldable pub drop_cr : Bytes → Bytes
drop_cr [] = []
drop_cr (c ∷ []) = if c == 13 then [] else c ∷ []
drop_cr (c ∷ d ∷ s) = c ∷ drop_cr (d ∷ s)

-- `final` stands for the error `bufio.ErrFinalToken`.
pub record SplitResult : Type 0 where
  pub advance : ℕ
  pub token : Option Bytes
  pub final : Bool

abbrev pub wait_for_more : SplitResult
wait_for_more = record { advance = 0; token = none; final = false }

unfoldable pub scan_lines : Bytes → Bool → SplitResult
unfolding index_newline drop_cr
scan_lines data_ at_eof =
    let rest =
      if at_eof
      then record { advance = length data_; token = some (drop_cr data_); final = false }
      else wait_for_more in
    if at_eof && is_empty data_ then wait_for_more else elim (index_newline data_) [
      | some i ↦ record { advance = suc i; token = some (drop_cr (take i data_)); final = false }
      | none ↦ rest
    ]

-- What stands behind the call of `bufio.ScanLines`.
unfoldable pub check_behind : Bytes → Bool → SplitResult → SplitResult
unfolding match_inline_eof
check_behind data_ at_eof r =
    let m = match_inline_eof (drop r.advance data_) in
    if is_positive m
    then record r { final = true }
    else if is_negative m && not at_eof
    then wait_for_more
    else r

unfoldable pub scan_lines_with_eof : Bytes → Bool → SplitResult
unfolding match_inline_eof scan_lines check_behind
scan_lines_with_eof data_ at_eof =
    let m = match_inline_eof data_ in
    if is_positive m
    then record { advance = 0; token = none; final = true }
    else if is_negative m && not at_eof
    then wait_for_more
    else check_behind data_ at_eof (scan_lines data_ at_eof)

-- `bufio.MaxScanTokenSize`
abbrev pub max_token_size : ℕ
max_token_size = 65536

-- All tokens of a scan, and whether it stopped with `bufio.ErrTooLong`.
pub record ScanResult : Type 0 where
  pub tokens : List Bytes
  pub too_long : Bool

abbrev pub stop : ScanResult
stop = record { tokens = []; too_long = false }

abbrev pub emit : Bytes → ScanResult → ScanResult
emit t r = record { tokens = t ∷ r.tokens; too_long = r.too_long }

-- One call of the split function: `again` scans on behind a token, `more` reads on without one.
-- With `ErrFinalToken` the scanner of Go 1.21 delivers the token even if it is nil.
abbrev pub dispatch : SplitResult → ScanResult → ScanResult → ScanResult
dispatch r again more = elim r.final [
  | true ↦ elim r.token [ none ↦ emit [] stop | some t ↦ emit t stop ]
  | false ↦ elim r.token [ none ↦ more | some t ↦ emit t again ]
]

-- The scan once the reader has ended.
unfoldable pub scan_end : ℕ → Bytes → ScanResult
scan_end zero buf = stop
scan_end (suc fuel) buf =
    let r = scan_lines_with_eof buf true in
    let again = scan_end fuel (drop r.advance buf) in dispatch r again stop

-- The scan while the reader delivers chunks; `buf` holds what is read and not yet a token. Each
-- token takes at least a byte off the buffer, so the fuel is one more than its length.
unfoldable pub scan : List Bytes → ℕ → Bytes → ScanResult
unfolding scan_end
scan chunks zero buf = stop
scan [] (suc fuel) buf =
    let r = scan_lines_with_eof buf false in
    let again = scan [] fuel (drop r.advance buf) in
    let finish = scan_end (suc (length buf)) buf in
    let more =
      if leb max_token_size (length buf) then record { tokens = []; too_long = true } else finish in
    if is_empty buf then more else dispatch r again more
scan (chunk ∷ chunks) (suc fuel) buf =
    let r = scan_lines_with_eof buf false in
    let again = scan (chunk ∷ chunks) fuel (drop r.advance buf) in
    let next = scan chunks (suc (length (buf ++ chunk))) (buf ++ chunk) in
    let more =
      if leb max_token_size (length buf) then record { tokens = []; too_long = true } else next in
    if is_empty buf then more else dispatch r again more

-- The scan of a whole input that comes in these chunks.
unfoldable pub scan_all : List Bytes → ScanResult
unfolding scan
scan_all chunks = scan chunks 1 []
