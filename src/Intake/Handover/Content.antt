-- ===== src/Intake/Handover/Content.antt =====
-- What the batches of one run of `runUpload` hold, and what is still to come.
use nixcached.Prelude.{
  ◌≤◌, ◌<◌, ◌≡◌, refl, sym, ap, ◌∙◌, true, false, arith, List, [], ◌∷◌, ◌++◌, inl, inr,
  append_assoc, append-nil, Option, none, some, ltb, length, length-append, Bytes, Option-cases,
  if_rule, All, All-append, concat, concat-append, ltb→lt,
}
use nixcached.Nix.{Nix, StorePath}
use nixcached.Intake.{take_in, scan_loop, batch_size}
use nixcached.Intake.Handover.{
  Run, ScanSide, scanning, sending, waiting, returned, collecting, scan_error, context_error, Step,
  cancel, scan, close, stop_scanning, stop_sending, hand_over, see_end, end_batch, start_uploads,
  drop_batch, stop_uploads, finish, return_, Reach, here, next, begin, receive, after_take,
}
use nixcached.Intake.Handover.Control.{is_finished, is_cut, batch_of}

abbrev pub IsBatch : List StorePath → Type 0
IsBatch b = (0 < length b) × (length b ≤ 100)

abbrev pending : ScanSide → List StorePath
pending (sending p) = p ∷ []
pending scanning = []
pending (waiting o) = []
pending (returned o) = []

-- The paths that came over the channel.
abbrev pub received : Run → List StorePath
received s = concat s.handled ++ batch_of s.worker

concat-snoc :
    (xss : List (List StorePath)) (xs : List StorePath)
    → concat (xss ++ xs ∷ []) ++ [] ≡ concat xss ++ xs
concat-snoc xss xs = simp (concat-append, append-nil)

after_take-open : (o : Option StorePath) → is_finished (after_take o) ≡ false
after_take-open none = refl
after_take-open (some p) = refl

IsBatch-snoc :
    (batch : List StorePath) (p : StorePath) → length batch < 100 → IsBatch (batch ++ p ∷ [])
IsBatch-snoc batch p m =
    (omega (arith, length-append batch (p ∷ [])), omega (arith, length-append batch (p ∷ [])))

module _ (nix : Nix) (dir : Bytes) (texts : List Bytes) where
  abbrev to_come : ScanSide → List Bytes → List StorePath
  to_come c rest = pending c ++ scan_loop nix dir rest

  pub record IsIntact (s : Run) : Type 0 where
    pub lost : List StorePath
    pub whole : received s ++ lost ≡ scan_loop nix dir texts
    pub kept : is_cut s.caller ≡ false → lost ≡ to_come s.caller s.texts
    pub sizes : All IsBatch s.handled
    pub room : length (batch_of s.worker) < 100
    pub drained : is_finished s.caller ≡ true → s.texts ≡ []

  to_come-scan :
      (raw : Bytes) (rest : List Bytes)
      → to_come (after_take (take_in nix dir raw)) rest ≡ scan_loop nix dir (raw ∷ rest)
  unfolding scan_loop
  to_come-scan raw rest = elim (Option-cases (take_in nix dir raw)) [
    | inl n ↦ rw (n, scan_loop) refl
    | inr (p, n) ↦ rw (n, scan_loop) refl
  ]

  -- A step over which no path goes through the channel.
  carry :
      (s t : Run) (h : IsIntact s)
      → received t ≡ received s
      → (is_cut t.caller ≡ false → h.lost ≡ to_come t.caller t.texts)
      → All IsBatch t.handled
      → length (batch_of t.worker) < 100
      → (is_finished t.caller ≡ true → t.texts ≡ [])
      → IsIntact t
  carry s t h r k z m d = record {
    lost = h.lost;
    whole = ap (λ l. l ++ h.lost) r ∙ h.whole;
    kept = k;
    sizes = z;
    room = m;
    drained = d;
  }

  -- A step of the caller.
  by_caller :
      (s t : Run) (h : IsIntact s)
      → t.handled ≡ s.handled
      → t.worker ≡ s.worker
      → (is_cut t.caller ≡ false → h.lost ≡ to_come t.caller t.texts)
      → (is_finished t.caller ≡ true → t.texts ≡ [])
      → IsIntact t
  by_caller s t h a w k d = carry s t h (rw (a, w) refl) k (rw a h.sizes) (rw w h.room) d

  -- A step of the worker, which leaves it room for a batch.
  by_worker :
      (s t : Run) (h : IsIntact s)
      → t.caller ≡ s.caller
      → t.texts ≡ s.texts
      → received t ≡ received s
      → All IsBatch t.handled
      → length (batch_of t.worker) < 100
      → IsIntact t
  by_worker s t h c l r z m = carry s t h r (rw (c, l) h.kept) z m (rw (c, l) h.drained)

  over_channel :
      (s : Run) (p : StorePath) (batch : List StorePath)
      → s.caller ≡ sending p
      → s.worker ≡ collecting batch
      → IsIntact s
      → concat s.handled ++ ((batch ++ p ∷ []) ++ scan_loop nix dir s.texts)
        ≡ scan_loop nix dir texts
  over_channel s p batch c w h =
      let kept : h.lost ≡ p ∷ scan_loop nix dir s.texts = h.kept (ap is_cut c) ∙ rw c refl in
      let whole : (concat s.handled ++ batch) ++ h.lost ≡ scan_loop nix dir texts =
        rw w at (h.whole) in
      ap (λ l. concat s.handled ++ l) (append_assoc batch (p ∷ []) (scan_loop nix dir s.texts))
      ∙ (sym (append_assoc (concat s.handled) batch (p ∷ scan_loop nix dir s.texts))
          ∙ (ap (λ l. (concat s.handled ++ batch) ++ l) (sym kept) ∙ whole))

  Step-IsIntact : (s t : Run) → Step nix dir s t → IsIntact s → IsIntact t
  unfolding receive
  Step-IsIntact s t (cancel c e) h = rw e (by_caller s _ h refl refl h.kept h.drained)
  Step-IsIntact s t (scan raw rest c l e) h = rw e (
      by_caller s _ h refl refl
        (λ q. h.kept (ap is_cut c) ∙ rw (c, l) (sym (to_come-scan raw rest)))
        (λ q. cc (after_take-open (take_in nix dir raw), q)))
  Step-IsIntact s t (close c l e) h =
      rw e (by_caller s _ h refl refl (λ q. h.kept (ap is_cut c) ∙ rw c refl) (λ q. l))
  Step-IsIntact s t (stop_scanning c l e) h =
      rw e (by_caller s _ h refl refl (λ q. cc q) (λ q. cc q))
  Step-IsIntact s t (stop_sending p c l e) h =
      rw e (by_caller s _ h refl refl (λ q. cc q) (λ q. cc q))
  Step-IsIntact s t (hand_over p batch c w e) h =
      let whole : concat s.handled ++ ((batch ++ p ∷ []) ++ scan_loop nix dir s.texts)
          ≡ scan_loop nix dir texts =
        over_channel s p batch c w h in
      rw e (
        if_rule IsIntact (ltb (length (batch ++ p ∷ [])) batch_size) _ _
          (λ lt. record {
            lost = scan_loop nix dir s.texts;
            whole = append_assoc (concat s.handled) (batch ++ p ∷ []) _ ∙ whole;
            kept = λ q. refl;
            sizes = h.sizes;
            room = ltb→lt _ _ lt;
            drained = λ q. cc q;
          })
          (λ ge. record {
            lost = scan_loop nix dir s.texts;
            whole =
                ap (λ l. l ++ scan_loop nix dir s.texts) (concat-snoc s.handled (batch ++ p ∷ []))
                ∙ (append_assoc (concat s.handled) (batch ++ p ∷ []) _ ∙ whole);
            kept = λ q. refl;
            sizes =
                All-append IsBatch s.handled ((batch ++ p ∷ []) ∷ []) h.sizes
                  (IsBatch-snoc batch p (rw w at (h.room)), tt);
            room = omega arith;
            drained = λ q. cc q;
          }))
  Step-IsIntact s t (see_end w c e) h =
      rw e (by_worker s _ h refl refl (rw w refl) h.sizes (omega arith))
  Step-IsIntact s t (end_batch p batch w e) h = rw e (
      by_worker s _ h refl refl (concat-snoc s.handled (p ∷ batch) ∙ rw w refl)
        (All-append IsBatch s.handled ((p ∷ batch) ∷ []) h.sizes
          (let m : length (p ∷ batch) < 100 = rw w at (h.room) in ((omega arith, omega arith), tt)))
        (omega arith))
  Step-IsIntact s t (start_uploads w e) h =
      rw e (by_worker s _ h refl refl (rw w refl) h.sizes (omega arith))
  Step-IsIntact s t (drop_batch batch w c e) h =
      rw e (by_worker s _ h refl refl (rw w refl) h.sizes (rw w at (h.room)))
  Step-IsIntact s t (stop_uploads w c e) h =
      rw e (by_worker s _ h refl refl (rw w refl) h.sizes (omega arith))
  Step-IsIntact s t (finish batch w e) h =
      rw e (by_worker s _ h refl refl (rw w refl) h.sizes (rw w at (h.room)))
  Step-IsIntact s t (return_ batch scan_error c w e) h = rw e (
      by_caller s _ h refl refl (λ q. h.kept (ap is_cut c) ∙ rw c refl)
        (λ q. h.drained (ap is_finished c)))
  Step-IsIntact s t (return_ batch context_error c w e) h =
      rw e (by_caller s _ h refl refl (λ q. cc q) (λ q. cc q))

  begin-IsIntact : IsIntact (begin texts)
  unfolding begin
  begin-IsIntact = record {
    lost = scan_loop nix dir texts;
    whole = refl;
    kept = λ q. refl;
    sizes = tt;
    room = omega arith;
    drained = λ q. cc q;
  }

  pub Reach-IsIntact : (s : Run) → Reach nix dir (begin texts) s → IsIntact s
  Reach-IsIntact s here = begin-IsIntact
  Reach-IsIntact s (next {t} r st) = Step-IsIntact t s st (Reach-IsIntact t r)
