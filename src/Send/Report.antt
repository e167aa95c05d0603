-- ===== src/Send/Report.antt =====
-- `runSend` as a whole: what it writes and what it returns.
use nixcached.Prelude.{
  ℕ, ◌≤◌, ◌≡◌, refl, sym, ◌∙◌, ap, List, [], ◌∷◌, ◌++◌, Option, none, some, map, append-nil, arith,
  length, keep, concat, All, Bytes, ◌⊎◌, inl, inr,
}
use native.Mathlib.Nat.{zero-add}
use nixcached.Send.{
  Sent, finished, failed, io, SendResult, report, close_file, settle, send_loop, run_send,
}
use nixcached.Send.Batches.{
  is_sendable, is_refused, lines, lines-append, written_of, send_loop-IsShort, RestOf, IsBatched,
  send_loop-IsBatched, EndsWith, send_loop-EndsWith,
}

concat-map-lines : (groups : List (List Bytes)) → concat (map lines groups) ≡ lines (concat groups)
concat-map-lines [] = refl
concat-map-lines (g ∷ groups) = rw (lines-append, concat-map-lines groups)

module _ {E : Type 0} where
  written-close_file : (c : Option E) (r : SendResult E) → (close_file c r).written ≡ r.written
  unfolding close_file
  written-close_file none r = refl
  written-close_file (some e) r = ground arith

  close_file-none : (r : SendResult E) → close_file none r ≡ r
  unfolding close_file
  close_file-none r = refl

  written-settle : (r : Sent E) → (settle r).written ≡ written_of r
  unfolding settle
  written-settle (finished w n) = refl
  written-settle (failed w e) = refl

  -- Whatever the file does and however `runSend` ends, no chunk that it writes is longer than
  -- the 512 bytes that a pipe takes in one piece.
  pub run_send-IsShort :
      (opened : Option E) (write : List Bytes → Bytes → Option E) (closed : Option E)
      (ps : List Bytes)
      → All (λ chunk. length chunk ≤ 512) (run_send opened write closed ps).written
  unfolding run_send
  run_send-IsShort (some e) write closed ps = tt
  run_send-IsShort none write closed ps =
      rw (written-close_file closed, written-settle)
        (send_loop-IsShort write ps [] 0 [] (omega arith) tt)

  no_rest :
      (closed : Option E) (r : Sent E) (rest : List Bytes)
      → RestOf {E = E} rest r
      → (rest ≡ []) ⊎ ((e : E) × ((close_file closed (settle r)).error ≡ some (io e)))
  unfolding settle close_file
  no_rest closed (finished w n) rest h = inl h
  no_rest none (failed w e) rest h = inr (e, refl)
  no_rest (some c) (failed w e) rest h = inr (e, refl)

  -- The chunks of an opened file are whole lines: each is the lines of a group of the sendable
  -- paths, in the order of the arguments. Paths are missing at the end only if an I/O error is
  -- returned.
  pub run_send-lines :
      (write : List Bytes → Bytes → Option E) (closed : Option E) (ps : List Bytes)
      → (groups : List (List Bytes)) × (rest : List Bytes) × ((run_send none write closed
            ps).written
          ≡ map lines groups)
        × (concat groups ++ rest ≡ keep is_sendable ps)
        × ((rest ≡ []) ⊎ ((e : E) × ((run_send none write closed ps).error ≡ some (io e))))
  unfolding run_send
  run_send-lines write closed ps =
      let (groups, rest, w, d, s) = send_loop-IsBatched write ps [] [] 0 [] refl in
      (
        groups,
        rest,
        written-close_file closed (settle (send_loop write ps [] 0 []))
            ∙ written-settle (send_loop write ps [] 0 [])
            ∙ w,
        d,
        no_rest closed (send_loop write ps [] 0 []) rest s,
      )

  settle_complete :
      (r : Sent E) (due : List Bytes) (m : ℕ)
      → IsBatched [] due r
      → EndsWith m r
      → (concat (settle r).written ≡ lines due) × ((settle r).error ≡ report m)
  unfolding settle
  settle_complete (finished w n) due m (groups, rest, e, d, s) (v, h) = (
    ap concat e
        ∙ concat-map-lines groups
        ∙ ap lines (sym (append-nil (concat groups)) ∙ ap (λ l. concat groups ++ l) (sym s) ∙ d),
    cc h,
  )
  settle_complete (failed w x) due m b (v, h) = cc

  -- With no I/O error the file receives exactly the lines of the sendable paths, and the returned
  -- error counts the other paths (no error if there are none).
  pub run_send_complete :
      (write : List Bytes → Bytes → Option E)
      → ((w : List Bytes) (b : Bytes) → write w b ≡ none)
      → (ps : List Bytes)
      → (concat (run_send none write none ps).written ≡ lines (keep is_sendable ps))
        × ((run_send none write none ps).error ≡ report (length (keep is_refused ps)))
  unfolding run_send
  run_send_complete write fine ps = rw close_file-none (
      settle_complete (send_loop write ps [] 0 []) (keep is_sendable ps)
        (length (keep is_refused ps)) (send_loop-IsBatched write ps [] [] 0 [] refl)
        (rw zero-add at (send_loop-EndsWith write fine ps [] 0 [])))
