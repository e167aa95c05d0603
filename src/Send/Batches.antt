-- ===== src/Send/Batches.antt =====
-- What `runSend` writes: whole lines, in order, in chunks that a pipe takes atomically.
use nixcached.Prelude.{
  ℕ, ◌+◌, ◌≤◌, ◌≡◌, refl, sym, ◌∙◌, Bool, true, false, not, List, [], ◌∷◌, ◌++◌, Option, none, some,
  map, append-nil, append_assoc, ap, arith, ltb, if◌then◌else◌, length, length-append, keep, concat,
  All, All-append, Bytes, contains_byte, Bool-cases, Option-cases, inl, inr, ltb→lt, ltb→le, ◌<◌,
}
use native.Mathlib.Nat.{add_assoc, add-zero}
use native.Mathlib.Numerals.{one-add}
use nixcached.Send.{pipe_buf_size, newline, Sent, finished, failed, flush, send_loop}

-- A path is sent if it holds no newline and its line fits into one atomic write.
abbrev pub is_sendable : Bytes → Bool
is_sendable p = if contains_byte newline p then false else not (ltb pipe_buf_size (length p + 1))

-- The paths of a chunk, one to a line.
abbrev pub lines : List Bytes → Bytes
lines [] = []
lines (p ∷ ps) = p ++ newline ∷ lines ps

abbrev pub written_of : {E : Type 0} → Sent E → List Bytes
written_of (finished w n) = w
written_of (failed w e) = w

pub lines-append : (ps qs : List Bytes) → lines (ps ++ qs) ≡ lines ps ++ lines qs
lines-append [] qs = refl
lines-append (p ∷ ps) qs = simp (lines-append ps qs, append_assoc)

abbrev pub IsShort : Bytes → Type 0
IsShort c = length c ≤ pipe_buf_size

abbrev pub is_refused : Bytes → Bool
is_refused p = not (is_sendable p)

lines-eq-nil : (ps : List Bytes) → [] ≡ lines ps → ps ≡ []
lines-eq-nil [] h = refl
lines-eq-nil ([] ∷ ps) h = cc
lines-eq-nil ((c ∷ p) ∷ ps) h = cc

module _ {E : Type 0} where
  -- The chunks behind `written` are the lines of groups of paths: all of `due` if the loop went
  -- through, and the beginning of it if a write failed.
  abbrev pub RestOf : List Bytes → Sent E → Type 0
  RestOf rest (finished w n) = rest ≡ []
  RestOf rest (failed w e) = Unit

  abbrev pub IsBatched : List Bytes → List Bytes → Sent E → Type 0
  IsBatched written due r =
      (groups : List (List Bytes)) × (rest : List Bytes) × (written_of r
        ≡ written ++ map lines groups)
      × (concat groups ++ rest ≡ due)
      × RestOf rest r

  -- One more chunk in front.
  IsBatched-cons :
      (r : Sent E) (written : List Bytes) (group due : List Bytes) (chunk : Bytes)
      → chunk ≡ lines group
      → IsBatched (written ++ chunk ∷ []) due r
      → IsBatched written (group ++ due) r
  IsBatched-cons r written group due chunk e (groups, rest, w, d, s) = (
    group ∷ groups,
    rest,
    w
        ∙ append_assoc written (chunk ∷ []) (map lines groups)
        ∙ ap (λ c. written ++ c ∷ map lines groups) e,
    append_assoc group (concat groups) rest ∙ ap (λ l. group ++ l) d,
    s,
  )

  abbrev pub EndsWith : ℕ → Sent E → Type 0
  EndsWith m r = (w : List Bytes) × (r ≡ finished w m)

module _ {E : Type 0} (write : List Bytes → Bytes → Option E) where
  flush_rule {κ} :
      (P : Sent E → Type κ) (buf : Bytes) (written : List Bytes) (continue : List Bytes → Sent E)
      → ((e : E) → write written buf ≡ some e → P (failed written e))
      → P (continue (written ++ buf ∷ []))
      → P (flush write buf written continue)
  unfolding flush
  flush_rule P buf written continue bad good = elim (Option-cases (write written buf)) [
    | inl e ↦ rw (e, flush) good
    | inr (x, e) ↦ rw (e, flush) (bad x e)
  ]

  -- One round of the loop, by what happens to the path.
  send_loop_rule {κ} :
      (P : Sent E → Type κ) (p : Bytes) (ps : List Bytes) (buf : Bytes) (n : ℕ)
      (written : List Bytes)
      → (is_sendable p ≡ false → P (send_loop write ps buf (n + 1) written))
      → (is_sendable p ≡ true → (e : E) → write written buf ≡ some e → P (failed written e))
      → (is_sendable p ≡ true
          → pipe_buf_size < length buf + (length p + 1)
          → length p + 1 ≤ pipe_buf_size
          → P (send_loop write ps (p ++ newline ∷ []) n (written ++ buf ∷ [])))
      → (is_sendable p ≡ true
          → length buf + (length p + 1) ≤ pipe_buf_size
          → P (send_loop write ps (buf ++ (p ++ newline ∷ [])) n written))
      → P (send_loop write (p ∷ ps) buf n written)
  unfolding send_loop
  send_loop_rule P p ps buf n written skip bad sent more =
      elim (Bool-cases (contains_byte newline p)) [
        | inl e ↦ rw e (skip (rw e))
        | inr e ↦ elim (Bool-cases (ltb pipe_buf_size (length p + 1))) [
          | inl l ↦ rw (e, l) (skip (rw (e, l)))
          | inr l ↦ elim (Bool-cases (ltb pipe_buf_size (length buf + (length p + 1)))) [
            | inl f ↦
                rw (e, l, f)
                  (flush_rule P buf written (λ w. send_loop write ps (p ++ newline ∷ []) n w)
                    (bad (rw (e, l))) (sent (rw (e, l)) (ltb→lt _ _ f) (ltb→le _ _ l)))
            | inr f ↦ rw (e, l, f) (more (rw (e, l)) (ltb→le _ _ f))
          ]
        ]
      ]

  pub send_loop-IsShort :
      (ps : List Bytes) (buf : Bytes) (n : ℕ) (written : List Bytes)
      → length buf ≤ pipe_buf_size
      → All IsShort written
      → All IsShort (written_of (send_loop write ps buf n written))
  send_loop-IsShort [] [] n written hb hw = unfold send_loop in hw
  send_loop-IsShort [] (c ∷ buf) n written hb hw =
      unfold send_loop in
      flush_rule (λ r. All IsShort (written_of r)) (c ∷ buf) written (λ w. finished w n) (λ e _. hw)
        (All-append IsShort written ((c ∷ buf) ∷ []) hw (hb, tt))
  send_loop-IsShort (p ∷ ps) buf n written hb hw =
      send_loop_rule (λ r. All IsShort (written_of r)) p ps buf n written
        (λ _. send_loop-IsShort ps buf (n + 1) written hb hw) (λ _ e _. hw)
        (λ _ full fits.
          send_loop-IsShort ps (p ++ newline ∷ []) n (written ++ buf ∷ [])
            (omega (arith, length-append p (newline ∷ [])))
            (All-append IsShort written (buf ∷ []) hw (hb, tt)))
        (λ _ fits.
          send_loop-IsShort ps (buf ++ (p ++ newline ∷ [])) n written
            (omega (arith, length-append p (newline ∷ []), length-append buf (p ++ newline ∷ [])))
            hw)

  -- `cur` are the paths whose lines stand in the buffer.
  pub send_loop-IsBatched :
      (ps cur : List Bytes) (buf : Bytes) (n : ℕ) (written : List Bytes)
      → buf ≡ lines cur
      → IsBatched written (cur ++ keep is_sendable ps) (send_loop write ps buf n written)
  send_loop-IsBatched [] cur [] n written e =
      unfold send_loop in
      ([], [], sym (append-nil written), sym (ap (λ l. l ++ []) (lines-eq-nil cur e)), refl)
  send_loop-IsBatched [] cur (c ∷ buf) n written e =
      unfold send_loop in
      flush_rule (IsBatched written (cur ++ [])) (c ∷ buf) written (λ w. finished w n)
        (λ x _. ([], cur ++ [], sym (append-nil written), refl, tt))
        (cur ∷ [], [], ap (λ l. written ++ l ∷ []) e, append-nil (cur ++ []), refl)
  send_loop-IsBatched (p ∷ ps) cur buf n written e =
      send_loop_rule (IsBatched written (cur ++ keep is_sendable (p ∷ ps))) p ps buf n written
        (λ h. rw h (send_loop-IsBatched ps cur buf (n + 1) written e))
        (λ h x _. ([], cur ++ keep is_sendable (p ∷ ps), sym (append-nil written), refl, tt))
        (λ h full fits. rw h (
          IsBatched-cons _ written cur (p ∷ keep is_sendable ps) buf e
            (send_loop-IsBatched ps (p ∷ []) (p ++ newline ∷ []) n (written ++ buf ∷ []) refl)))
        (λ h fits. rw h (
          rw (append_assoc cur (p ∷ []) (keep is_sendable ps)) at (
            send_loop-IsBatched ps (cur ++ p ∷ []) (buf ++ (p ++ newline ∷ [])) n written
              (rw (e, lines-append) refl))))

  -- With no failing write the loop ends by itself and has counted the paths that it left out.
  pub send_loop-EndsWith :
      ((w : List Bytes) (b : Bytes) → write w b ≡ none)
      → (ps : List Bytes) (buf : Bytes) (n : ℕ) (written : List Bytes)
      → EndsWith (n + length (keep is_refused ps)) (send_loop write ps buf n written)
  send_loop-EndsWith fine [] [] n written =
      unfold send_loop in (written, ap (finished written) (sym (add-zero n)))
  send_loop-EndsWith fine [] (c ∷ buf) n written =
      unfold send_loop in
      flush_rule (EndsWith (n + 0)) (c ∷ buf) written (λ w. finished w n)
        (λ x h. cc (fine written (c ∷ buf)))
        (written ++ (c ∷ buf) ∷ [], ap (finished (written ++ (c ∷ buf) ∷ [])) (sym (add-zero n)))
  send_loop-EndsWith fine (p ∷ ps) buf n written =
      send_loop_rule (EndsWith (n + length (keep is_refused (p ∷ ps)))) p ps buf n written
        (λ h. rw h (
          rw (add_assoc n 1 (length (keep is_refused ps)), one-add) at
            (send_loop-EndsWith fine ps buf (n + 1) written)))
        (λ h x e. cc (fine written buf))
        (λ h full fits.
          rw h (send_loop-EndsWith fine ps (p ++ newline ∷ []) n (written ++ buf ∷ [])))
        (λ h fits. rw h (send_loop-EndsWith fine ps (buf ++ (p ++ newline ∷ [])) n written))
