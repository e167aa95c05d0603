-- ===== src/Shell.antt =====
-- `shellEscape` and the command line that `SSH.newCommand` sends (internal/nixstore/ssh.go).
-- The builder is the text written so far; `Grow` only reserves space and is left out.
pub mod Reader
pub mod RoundTrip
use nixcached.Prelude.{
  ℕ, ◌≡◌, refl, Bool, true, false, ◌&&◌, ◌||◌, List, [], ◌∷◌, ◌++◌, leb, ◌==◌, if◌then◌else◌, Bytes,
  codes,
}

abbrev pub single_quote : ℕ
single_quote = 39

abbrev pub space : ℕ
space = 32

-- `'\''`: close the quotes, an escaped quote, open them again.
abbrev pub single_quote_escape : Bytes
single_quote_escape = 39 ∷ 92 ∷ 39 ∷ 39 ∷ []

unfoldable pub is_shell_safe : ℕ → Bool
is_shell_safe b =
    (leb b'A' b && leb b b'Z')
    || (leb b'a' b && leb b b'z')
    || (leb b'0' b && leb b b'9')
    || b == b'-'
    || b == b'_'
    || b == b'/'
    || b == b'.'

-- The first loop, which clears `safe` at an unsafe byte.
unfoldable pub scan_safe : Bytes → Bool → Bool
scan_safe [] safe = safe
scan_safe (c ∷ s) safe = scan_safe s (if is_shell_safe c then safe else false)

-- The second loop, between the two quotes.
unfoldable pub write_quoted : Bytes → Bytes → Bytes
write_quoted [] sb = sb
write_quoted (c ∷ s) sb =
    write_quoted s (if c == single_quote then sb ++ single_quote_escape else sb ++ c ∷ [])

unfoldable pub shell_escape : Bytes → Bytes → Bytes
shell_escape sb [] = sb ++ single_quote ∷ single_quote ∷ []
shell_escape sb (c ∷ s) =
    if scan_safe (c ∷ s) true
    then sb ++ (c ∷ s)
    else write_quoted (c ∷ s) (sb ++ single_quote ∷ []) ++ single_quote ∷ []

unfoldable pub write_args : List Bytes → Bytes → Bytes
write_args [] sb = sb
write_args (arg ∷ args) sb = write_args args (shell_escape (sb ++ space ∷ []) arg)

-- The text that `newCommand` builds from `s.dir()`, `s.exe()` and the arguments.
unfoldable pub command_arg : Bytes → Bytes → List Bytes → Bytes
command_arg dir exe args =
    let sb = shell_escape (codes "NIX_STORE_DIR=") dir in
    write_args args (shell_escape (sb ++ space ∷ []) exe)
