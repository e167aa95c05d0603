-- ===== src/Shell/RoundTrip.antt =====
-- The remote shell reads back what `newCommand` was given.
use nixcached.Prelude.{
  ℕ, ◌≡◌, ◌≢◌, refl, sym, ap, ◌∙◌, true, false, List, [], ◌∷◌, ◌++◌, some, append-nil, append_assoc,
  arith, ◌==◌, if◌then◌else◌, Bytes, codes, Bool-cases, inl, inr, ==_iff,
}
use nixcached.Shell.{
  is_shell_safe, scan_safe, write_quoted, shell_escape, write_args, command_arg, single_quote,
  single_quote_escape, space,
}
use nixcached.Shell.Reader.{between, word, quoted, is_special, read, words}

safe-plain :
    (c : ℕ) → is_shell_safe c ≡ true → (is_special c ≡ false) × (c ≢ 32) × (c ≢ 39) × (c ≢ 92)
unfolding is_shell_safe is_special
safe-plain c h = ground arith

scan_safe-false : (s : Bytes) → scan_safe s false ≡ false
unfolding scan_safe
scan_safe-false [] = refl
scan_safe-false (c ∷ s) = ground (arith, scan_safe-false s)

read-safe :
    (s cur : Bytes) (out : List Bytes) (rest : Bytes)
    → scan_safe s true ≡ true
    → read word cur out (s ++ rest) ≡ read word (cur ++ s) out rest
unfolding read scan_safe
read-safe [] cur out rest h = rw append-nil
read-safe (c ∷ s) cur out rest h = ground (
  arith,
  scan_safe-false s,
  safe-plain c,
  read-safe s (cur ++ c ∷ []) out rest,
  append_assoc cur (c ∷ []) s,
)

-- What the second loop writes.
body : Bytes → Bytes
body [] = []
body (c ∷ s) = (if c == single_quote then single_quote_escape else c ∷ []) ++ body s

write_quoted-body : (s sb : Bytes) → write_quoted s sb ≡ sb ++ body s
unfolding write_quoted body
write_quoted-body [] sb = sym (append-nil sb)
write_quoted-body (c ∷ s) sb = ground (
  arith,
  write_quoted-body s (sb ++ single_quote_escape),
  write_quoted-body s (sb ++ c ∷ []),
  append_assoc sb single_quote_escape (body s),
  append_assoc sb (c ∷ []) (body s),
)

-- One byte of a quoted text is read as itself.
read-hide :
    (c : ℕ) (cur : Bytes) (out : List Bytes) (rest : Bytes)
    → read quoted cur out ((if c == single_quote then single_quote_escape else c ∷ []) ++ rest)
      ≡ read quoted (cur ++ c ∷ []) out rest
unfolding read
read-hide c cur out rest = elim (Bool-cases (c == 39)) [
  | inl e ↦ rw (e, (==_iff c 39).0 e) refl
  | inr e ↦ rw (e, e) refl
]

read-body :
    (s cur : Bytes) (out : List Bytes) (rest : Bytes)
    → read quoted cur out (body s ++ rest) ≡ read quoted (cur ++ s) out rest
unfolding body
read-body [] cur out rest = rw append-nil
read-body (c ∷ s) cur out rest = simp (append_assoc, read-hide, read-body s)

shell_escape-append : (sb s : Bytes) → shell_escape sb s ≡ sb ++ shell_escape [] s
unfolding shell_escape
shell_escape-append sb [] = refl
shell_escape-append sb (c ∷ s) = elim (Bool-cases (scan_safe (c ∷ s) true)) [
  | inl e ↦ rw e
  | inr e ↦ rw e (simp (write_quoted-body, append_assoc))
]

read-open :
    (cur : Bytes) (out : List Bytes) (rest : Bytes)
    → read word cur out (39 ∷ rest) ≡ read quoted cur out rest
unfolding read
read-open cur out rest = refl

read-close :
    (cur : Bytes) (out : List Bytes) (rest : Bytes)
    → read quoted cur out (39 ∷ rest) ≡ read word cur out rest
unfolding read
read-close cur out rest = refl

-- An escaped text behind an unfinished word is read as the rest of that word.
read_word-shell_escape :
    (s cur : Bytes) (out : List Bytes) (rest : Bytes)
    → read word cur out (shell_escape [] s ++ rest) ≡ read word (cur ++ s) out rest
unfolding shell_escape
read_word-shell_escape [] cur out rest = simp (read-open, read-close, append-nil)
read_word-shell_escape (c ∷ s) cur out rest = elim (Bool-cases (scan_safe (c ∷ s) true)) [
  | inl e ↦ rw e (read-safe (c ∷ s) cur out rest e)
  | inr e ↦ rw e (simp (write_quoted-body, append_assoc, read-open, read-body (c ∷ s), read-close))
]

between-word :
    (c : ℕ) (s : Bytes) (out : List Bytes)
    → c ≢ 32
    → read between [] out (c ∷ s) ≡ read word [] out (c ∷ s)
unfolding read
between-word c s out h = ground arith

scan_safe-head : (c : ℕ) (s : Bytes) → scan_safe (c ∷ s) true ≡ true → c ≢ 32
unfolding scan_safe is_shell_safe
scan_safe-head c s h e = ground (arith, scan_safe-false s)

shell_escape-cons :
    (s rest : Bytes) → (c : ℕ) × (t : Bytes) × (shell_escape [] s ++ rest ≡ c ∷ t) × (c ≢ 32)
unfolding shell_escape
shell_escape-cons [] rest = (39, 39 ∷ rest, refl, omega arith)
shell_escape-cons (c ∷ s) rest = elim (Bool-cases (scan_safe (c ∷ s) true)) [
  | inl e ↦ (c, s ++ rest, rw e, scan_safe-head c s e)
  | inr e ↦ (39, (body (c ∷ s) ++ 39 ∷ []) ++ rest, rw (e, write_quoted-body), omega arith)
]

-- At the start of a word an escaped text is read as that word, and nothing of it is expanded.
read_between-shell_escape :
    (s : Bytes) (out : List Bytes) (rest : Bytes)
    → read between [] out (shell_escape [] s ++ rest) ≡ read word s out rest
read_between-shell_escape s out rest =
    let (c, t, e, n) = shell_escape-cons s rest in
    cc (between-word c t out n, read_word-shell_escape s [] out rest)

read-space :
    (cur : Bytes) (out : List Bytes) (rest : Bytes)
    → read word cur out (32 ∷ rest) ≡ read between [] (out ++ cur ∷ []) rest
unfolding read
read-space cur out rest = refl

-- The text that `write_args` appends.
tail_text : List Bytes → Bytes
tail_text [] = []
tail_text (arg ∷ args) = 32 ∷ shell_escape [] arg ++ tail_text args

write_args-tail_text : (args : List Bytes) (sb : Bytes) → write_args args sb ≡ sb ++ tail_text args
unfolding write_args tail_text
write_args-tail_text [] sb = sym (append-nil sb)
write_args-tail_text (arg ∷ args) sb =
    rw (write_args-tail_text args, shell_escape-append _ arg) (simp append_assoc)

read-tail_text :
    (args : List Bytes) (cur : Bytes) (out : List Bytes)
    → read word cur out (tail_text args) ≡ some (out ++ cur ∷ args)
unfolding tail_text
read-tail_text [] cur out = unfold read in refl
read-tail_text (arg ∷ args) cur out =
    rw (read-space, read_between-shell_escape, read-tail_text args) (simp append_assoc)

read_assignment :
    (rest : Bytes)
    → read between [] [] (codes "NIX_STORE_DIR=" ++ rest)
      ≡ read word (codes "NIX_STORE_DIR=") [] rest
unfolding read is_special
read_assignment rest = refl

command_arg-tail_text :
    (dir exe : Bytes) (args : List Bytes)
    → command_arg dir exe args
      ≡ codes "NIX_STORE_DIR=" ++ (shell_escape [] dir ++ tail_text (exe ∷ args))
unfolding command_arg tail_text
command_arg-tail_text dir exe args =
    rw
      (
        write_args-tail_text,
        shell_escape-append (shell_escape _ dir ++ space ∷ []) exe,
        shell_escape-append (codes "NIX_STORE_DIR=") dir,
      )
      (simp append_assoc)

-- Whatever bytes the store directory, the executable and the arguments hold, a shell reads the
-- command line as the assignment, the executable and the arguments, each as one word, and expands
-- nothing.
pub words-command_arg :
    (dir exe : Bytes) (args : List Bytes)
    → words (command_arg dir exe args) ≡ some ((codes "NIX_STORE_DIR=" ++ dir) ∷ exe ∷ args)
unfolding words
words-command_arg dir exe args =
    ap (read between [] []) (command_arg-tail_text dir exe args)
    ∙ read_assignment (shell_escape [] dir ++ tail_text (exe ∷ args))
    ∙ read_word-shell_escape dir (codes "NIX_STORE_DIR=") [] (tail_text (exe ∷ args))
    ∙ read-tail_text (exe ∷ args) (codes "NIX_STORE_DIR=" ++ dir) []
