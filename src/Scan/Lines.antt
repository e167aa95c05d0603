-- ===== src/Scan/Lines.antt =====
-- The lines that an input is meant to deliver, as an independent description: its lines without
-- their line ends, up to the first line that is exactly the end mark.
use nixcached.Prelude.{
  ℕ, ◌+◌, Bool, true, ◌&&◌, ◌||◌, List, [], ◌∷◌, ◌++◌, ltb, ◌==◌, if◌then◌else◌, Bytes, has_prefix,
}
use nixcached.Scan.{drop_cr}

-- The end mark is a zero byte on a line of its own.
abbrev pub is_end : Bytes → Bool
is_end s = has_prefix (0 ∷ 10 ∷ []) s || has_prefix (0 ∷ 13 ∷ 10 ∷ []) s

-- `cur` is the line so far.
unfoldable pub lines_in : Bytes → Bytes → List Bytes
lines_in [] [] = []
lines_in (b ∷ cur) [] = drop_cr (b ∷ cur) ∷ []
lines_in cur (c ∷ s) =
    let rest = lines_in [] s in
    let more = lines_in (cur ++ c ∷ []) s in
    if c == 10 then drop_cr cur ∷ (if is_end s then [] else rest) else more

unfoldable pub lines_of : Bytes → List Bytes
unfolding lines_in
lines_of s = if is_end s then [] else lines_in [] s

-- No line is longer than the buffer allows: its bytes, a line end and the start of an end mark.
abbrev pub max_line : ℕ
max_line = 65532

unfoldable pub fits : ℕ → Bytes → Bool
fits n [] = true
fits n (c ∷ s) =
    let rest = fits 0 s in
    let more = fits (n + 1) s in if c == 10 then rest else ltb n max_line && more
