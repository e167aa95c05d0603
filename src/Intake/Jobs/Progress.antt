-- ===== src/Intake/Jobs/Progress.antt =====
-- The uploads of `processUploads` come to an end.
use nixcached.Prelude.{
  ℕ, suc, ◌+◌, ◌-◌, ◌*◌, ◌≤◌, ◌<◌, ◌≡◌, refl, ap, Bool, true, false, arith, List, [], ◌∷◌, length,
  length-append, count, if◌then◌else◌, Bool-cases, ltb, ltb→lt, ltb→le, inl, inr,
}
use nixcached.Intake.Jobs.{
  Jobs, Step, start, finish, stop, end_context, cancel, fill, return_, Reach, here, next, begin,
}
use nixcached.Intake.Jobs.Bounds.{Reach-IsBounded, Reach-waits}

abbrev open_ : Bool → ℕ
open_ b = if b then 0 else 1

module _ {J : Type 0} (limit : ℕ) where
  -- What is left to do.
  abbrev left : Jobs J → ℕ
  left s =
      2 * length s.waiting
      + length s.running
      + (limit - s.filled)
      + open_ s.stopped
      + open_ s.returned
      + open_ s.cancelled

  Step-left : (s t : Jobs J) → Step limit s t → left t < left s
  Step-left s t (start x xs a w lt e) = rw e (omega (arith, ap length w))
  Step-left s t (finish xs ys x r e) =
      rw e (omega (arith, ap length r, length-append xs (x ∷ ys), length-append xs ys))
  Step-left s t (stop a w e) = rw (e, a) (omega arith)
  Step-left s t (end_context c e) = rw (e, c) (omega arith)
  Step-left s t (cancel a c e) = rw (e, a) (omega arith)
  Step-left s t (fill a f lt e) = rw e (omega (arith, f))
  Step-left s t (return_ a n f e) = rw (e, n) (omega arith)

  abbrev pub steps : {s t : Jobs J} → Reach limit s t → ℕ
  steps here = 0
  steps (next r st) = suc (steps r)

  Reach-left : (s t : Jobs J) (r : Reach limit s t) → steps r + left t ≤ left s
  Reach-left s t here = omega arith
  Reach-left s t (next {t = u} r st) = omega (arith, Reach-left s u r, Step-left u t st)

  -- The next step of the function itself, or of an upload.
  step_of :
      (s : Jobs J) (w rs : List J) (stopped : Bool)
      → 0 < limit
      → s.waiting ≡ w
      → s.running ≡ rs
      → s.stopped ≡ stopped
      → s.returned ≡ false
      → s.filled ≤ limit
      → (s.stopped ≡ false → s.filled ≡ 0)
      → (t : Jobs J) × Step limit s t × (t.cancelled ≡ s.cancelled)
  step_of s w (x ∷ rs) b pos ew er es q f z = (_, finish [] rs x er refl, refl)
  step_of s [] [] false pos ew er es q f z = (_, stop es ew refl, refl)
  step_of s (x ∷ xs) [] false pos ew er es q f z =
      (_, start x xs es ew (omega (arith, ap length er, z es)) refl, refl)
  step_of s w [] true pos ew er es q f z = elim (Bool-cases (ltb s.filled limit)) [
    | inl lt ↦ (_, fill es (ltb→lt _ _ lt) (omega (arith, ap length er, ltb→lt _ _ lt)) refl, refl)
    | inr ge ↦ (_, return_ es q (omega (arith, f, ltb→le _ _ ge)) refl, refl)
  ]

-- Where at least one upload may run at a time, `processUploads` returns: no run of it on a number of
-- infos has more steps than twice that number, the limit and three, it never runs more uploads than
-- the limit, and a run has a further step, which is not the end of the context, until the function has
-- returned. When it has, no upload runs any more, and each info has been uploaded as often as it was
-- there, but for those that were left; where the context has not ended, none were left.
pub Reach-waits_for_jobs :
    {J : Type 0} (limit : ℕ) (jobs : List J) (s : Jobs J) (r : Reach limit (begin jobs) s)
    → 0 < limit
    → (steps limit r ≤ 2 * length jobs + limit + 3)
      × (length s.running ≤ limit)
      × (s.returned ≡ false → (t : Jobs J) × Step limit s t × (t.cancelled ≡ s.cancelled))
      × (s.returned ≡ true
          → (s.running ≡ [])
            × ((p : J → Bool) → count p s.waiting + count p s.done ≡ count p jobs)
            × (s.cancelled ≡ false → (p : J → Bool) → count p s.done ≡ count p jobs))
unfolding begin
Reach-waits_for_jobs limit jobs s r pos =
    let h = Reach-IsBounded limit jobs s r in
    let (bound, after) = Reach-waits limit jobs s r in
    (
      omega (arith, Reach-left limit (begin jobs) s r),
      bound,
      λ q.
          step_of limit s s.waiting s.running s.stopped pos refl refl refl q
            (omega (arith, h.bound)) h.idle,
      after,
    )
