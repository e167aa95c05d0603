-- ===== src/Shell/Reader.antt =====
-- How a POSIX shell cuts a simple command into words, as an independent description: blanks
-- separate words, single quotes and backslashes quote. The reader gives up (`none`) at a byte with
-- any other meaning to a shell, so that a successful read expands nothing.
use nixcached.Prelude.{
  ℕ, Bool, ◌&&◌, ◌||◌, not, List, [], ◌∷◌, ◌++◌, Option, none, some, leb, ◌==◌, if◌then◌else◌,
  Bytes, codes, contains_byte,
}

pub data Mode : Type 0 where
  between : Mode
  word : Mode
  quoted : Mode
  escaped : Mode

-- The bytes that POSIX lists as to be quoted, the equals sign apart, and all that is no
-- printable ASCII.
unfoldable pub is_special : ℕ → Bool
unfolding contains_byte
is_special c = not (leb 33 c && leb c 126) || contains_byte c (codes "|&;<>()$`\\\"'*?[]#~%!{}^")

-- A byte outside quotes that is no blank; `continue` reads on in a mode with the word so far.
read_unquoted : (Mode → Bytes → Option (List Bytes)) → Bytes → ℕ → Option (List Bytes)
read_unquoted continue cur c =
    if c == 39
    then continue quoted cur
    else if c == 92
    then continue escaped cur
    else if is_special c
    then none
    else continue word (cur ++ c ∷ [])

-- `cur` is the word so far and `out` the words before it.
unfoldable pub read : Mode → Bytes → List Bytes → Bytes → Option (List Bytes)
unfolding read_unquoted
read between cur out [] = some out
read word cur out [] = some (out ++ cur ∷ [])
read quoted cur out [] = none
read escaped cur out [] = none
read between cur out (c ∷ s) =
    let next = read between [] out s in
    let first = read_unquoted (λ m w. read m w out s) [] c in if c == 32 then next else first
read word cur out (c ∷ s) =
    let next = read between [] (out ++ cur ∷ []) s in
    let more = read_unquoted (λ m w. read m w out s) cur c in if c == 32 then next else more
read quoted cur out (c ∷ s) =
    let close = read word cur out s in
    let more = read quoted (cur ++ c ∷ []) out s in if c == 39 then close else more
read escaped cur out (c ∷ s) =
    let more = read word (cur ++ c ∷ []) out s in if c == 10 then none else more

-- The words of a command line.
unfoldable pub words : Bytes → Option (List Bytes)
unfolding read
words s = read between [] [] s
