-- ===== src/Calls/Owned.antt =====
-- Who owns the result of a call, and which files are open.
use nixcached.Prelude.{
  ℕ, ◌≡◌, refl, ap, ◌∙◌, true, List, [], ◌++◌, append-nil, Option, none, some, ◌⊎◌, inl, inr,
  eq_self,
}
use nixcached.Calls.{
  CallKind, FileResult, files_of, close_result, open_file_ctx, write_ctx, Worker, calling, sending,
  exited, waiting, got, abandoned, Call, Step, cancel, called, hand_over, drop_, abandon, Reach,
  here, next, begin,
}

-- The caller has the result, and just the files of the result are open.
pub record IsDelivered {R : Type 0} (k : CallKind R) (s : Call R) : Type 0 where
  pub result : R
  pub caller : s.caller ≡ got result
  pub open_files : s.open_files ≡ k.opens result

-- The caller has no result and never gets one, and no file is open.
pub record IsDropped {R : Type 0} (s : Call R) : Type 0 where
  pub open_files : s.open_files ≡ []
  pub cancelled : s.cancelled ≡ true
  pub caller : (s.caller ≡ waiting) ⊎ (s.caller ≡ abandoned)

-- A goroutine that has a result can go, and once it has gone the result is the caller's, or it has
-- been dropped.
abbrev pub IsOwned : {R : Type 0} → CallKind R → Call R → Type 0
IsOwned {R} k s =
    ((x : R) → s.worker ≡ sending x → (t : Call R) × Step k s t × (t.worker ≡ exited))
    × (s.worker ≡ exited → IsDelivered k s ⊎ IsDropped s)

module _ {R : Type 0} (k : CallKind R) (law : (r : R) → k.drop_result r (k.opens r) ≡ []) where
  -- Nobody has a result yet, and a caller that is gone has gone with its context.
  record IsPending (files : List ℕ) (s : Call R) : Type 0 where
    open_files : s.open_files ≡ files
    caller : (s.caller ≡ waiting) ⊎ ((s.caller ≡ abandoned) × (s.cancelled ≡ true))

  -- What holds of a call, by the state of its worker.
  abbrev Fits : Worker R → Call R → Type 0
  Fits calling s = IsPending [] s
  Fits (sending r) s = IsPending (k.opens r) s
  Fits exited s = IsDelivered k s ⊎ IsDropped s

  -- Without a result, after the context has ended.
  cancel-IsPending :
      (files : List ℕ) (s : Call R)
      → IsPending files s
      → IsPending files (record s { cancelled = true })
  cancel-IsPending files s h = record {
    open_files = h.open_files;
    caller = elim h.caller [ inl e ↦ inl e | inr (e, c) ↦ inr (e, refl) ];
  }

  cancel-Fits : (w : Worker R) (s : Call R) → Fits w s → Fits w (record s { cancelled = true })
  cancel-Fits calling s h = cancel-IsPending [] s h
  cancel-Fits (sending r) s h = cancel-IsPending (k.opens r) s h
  cancel-Fits exited s (inl d) =
      inl (record { result = d.result; caller = d.caller; open_files = d.open_files })
  cancel-Fits exited s (inr d) =
      inr (record { open_files = d.open_files; cancelled = refl; caller = d.caller })

  abandon-IsPending :
      (files : List ℕ) (s : Call R)
      → s.cancelled ≡ true
      → IsPending files s
      → IsPending files (record s { caller = abandoned })
  abandon-IsPending files s c h = record { open_files = h.open_files; caller = inr (refl, c) }

  abandon-Fits :
      (w : Worker R) (s : Call R)
      → s.caller ≡ waiting
      → s.cancelled ≡ true
      → Fits w s
      → Fits w (record s { caller = abandoned })
  abandon-Fits calling s a c h = abandon-IsPending _ s c h
  abandon-Fits (sending r) s a c h = abandon-IsPending _ s c h
  abandon-Fits exited s a c (inl d) = cc (a, d.caller)
  abandon-Fits exited s a c (inr d) =
      inr (record { open_files = d.open_files; cancelled = c; caller = inr refl })

  -- The same for a worker whose state is known.
  Fits-at : (v w : Worker R) (s : Call R) → v ≡ w → Fits v s → Fits w s
  Fits-at v w s e h = rw e at h

  not_got :
      (files : List ℕ) (s : Call R)
      → IsPending files s
      → (s.caller ≡ waiting) ⊎ (s.caller ≡ abandoned)
  not_got files s h = elim h.caller [ inl e ↦ inl e | inr (e, c) ↦ inr e ]

  Step-Fits : (s t : Call R) → Step k s t → Fits s.worker s → Fits t.worker t
  Step-Fits s t (cancel e) h = rw e (cancel-Fits s.worker s h)
  Step-Fits s t (called r w e) h =
      let p = Fits-at s.worker calling s w h in
      rw e (record {
        open_files = ap (λ l. k.opens r ++ l) p.open_files ∙ append-nil (k.opens r);
        caller = p.caller;
      })
  Step-Fits s t (hand_over r w a e) h =
      let p = Fits-at s.worker (sending r) s w h in
      rw e (inl (record { result = r; caller = refl; open_files = p.open_files }))
  Step-Fits s t (drop_ r w c e) h =
      let p = Fits-at s.worker (sending r) s w h in
      rw e (
        inr (record {
          open_files = ap (λ l. k.drop_result r l) p.open_files ∙ law r;
          cancelled = c;
          caller = not_got (k.opens r) s p;
        }))
  Step-Fits s t (abandon a c e) h = rw e (abandon-Fits s.worker s a c h)

  begin-Fits : Fits calling (begin R)
  unfolding begin
  begin-Fits = record { open_files = refl; caller = inl refl }

  Reach-Fits : (s : Call R) → Reach k (begin R) s → Fits s.worker s
  unfolding begin
  Reach-Fits s here = begin-Fits
  Reach-Fits s (next {t = t} r st) = Step-Fits t s st (Reach-Fits t r)

  Reach-IsOwned : (s : Call R) → Reach k (begin R) s → IsOwned k s
  Reach-IsOwned s r = (
    λ x w. elim (Fits-at s.worker (sending x) s w (Reach-Fits s r)).caller [
      | inl a ↦ (_, hand_over x w a refl, refl)
      | inr (a, c) ↦ (_, drop_ x w c refl, refl)
    ],
    λ w. Fits-at s.worker exited s w (Reach-Fits s r),
  )

close_result-files_of : {E : Type 0} (r : FileResult E) → close_result r (files_of r) ≡ []
unfolding close_result
close_result-files_of (none, e) = refl
close_result-files_of (some f, e) = rw (eq_self f) refl

-- In `openFileCtx` a goroutine whose system call has returned can go in one step. Once it has gone,
-- the caller has the result, and the file of the result, if it has one, is the only one that is open; or
-- the context has ended, the caller has not got the result, and no file is open. The same holds of
-- `writeCtx`, which opens none.
pub Reach-closes_files :
    (E : Type 0) (s : Call (FileResult E)) (u : Call (ℕ × Option E))
    → Reach (open_file_ctx E) (begin (FileResult E)) s
    → Reach (write_ctx E) (begin (ℕ × Option E)) u
    → IsOwned (open_file_ctx E) s × IsOwned (write_ctx E) u
Reach-closes_files E s u r q = (
  Reach-IsOwned (open_file_ctx E) close_result-files_of s r,
  Reach-IsOwned (write_ctx E) (λ x. refl) u q,
)
