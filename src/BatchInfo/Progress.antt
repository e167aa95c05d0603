-- ===== src/BatchInfo/Progress.antt =====
-- `BatchNARInfo` comes to an end.
use nixcached.Prelude.{
  ℕ, suc, ◌+◌, ◌*◌, ◌≤◌, ◌<◌, ◌≡◌, refl, ap, Bool, false, arith, List, [], ◌∷◌, ◌++◌, length,
  length-append, count, if◌then◌else◌, Bytes, ◌⊎◌, inl, inr,
}
use nixcached.Upload.{NarInfo}
use nixcached.Serve.{Lookup, hit, missing, lookup_failed}
use nixcached.BatchInfo.{
  Batch, Step, start, append, skip, fail, cancel, Reach, here, next, in_turn, begin,
}
use nixcached.BatchInfo.Results.{Reach-results}

abbrev not_yet : Bool → ℕ
not_yet b = if b then 0 else 1

-- What is left to do.
abbrev left : Batch → ℕ
left s = 2 * length s.waiting + length s.running + not_yet s.cancelled

module _ (nar_info : Bytes → Lookup) (limit : ℕ) where
  fewer :
      (xs ys : List Bytes) (d : Bytes) (rs : List Bytes)
      → rs ≡ xs ++ d ∷ ys
      → suc (length (xs ++ ys)) ≡ length rs
  fewer xs ys d rs r = omega (arith, ap length r, length-append xs (d ∷ ys), length-append xs ys)

  Step-left : (s t : Batch) → Step nar_info limit s t → left t < left s
  Step-left s t (start d ds w lt e) = rw e (omega (arith, ap length w))
  Step-left s t (append xs ys d info r i e) = rw e (omega (arith, fewer xs ys d s.running r))
  Step-left s t (skip xs ys d r i e) = rw e (omega (arith, fewer xs ys d s.running r))
  Step-left s t (fail xs ys d r i e) = rw e (omega (arith, fewer xs ys d s.running r))
  Step-left s t (cancel c e) = rw (e, c) (omega arith)

  abbrev pub steps : {s t : Batch} → Reach nar_info limit s t → ℕ
  steps here = 0
  steps (next r st) = suc (steps r)

  Reach-left : (s t : Batch) (r : Reach nar_info limit s t) → steps r + left t ≤ left s
  Reach-left s t here = omega arith
  Reach-left s t (next {t = u} r st) = omega (arith, Reach-left s u r, Step-left u t st)

  -- A lookup that runs can end.
  ends :
      (s : Batch) (d : Bytes) (ds : List Bytes) (a : Lookup)
      → s.running ≡ d ∷ ds
      → nar_info d ≡ a
      → (t : Batch) × Step nar_info limit s t
  ends s d ds (hit info) r e = (_, append [] ds d info r e refl)
  ends s d ds missing r e = (_, skip [] ds d r e refl)
  ends s d ds lookup_failed r e = (_, fail [] ds d r (inl e) refl)

  step_of :
      (s : Batch) (w rs : List Bytes)
      → 0 < limit
      → s.waiting ≡ w
      → s.running ≡ rs
      → ((w ≡ []) × (rs ≡ [])) ⊎ ((t : Batch) × Step nar_info limit s t)
  step_of s w (d ∷ rs) pos ew er = inr (ends s d rs (nar_info d) er refl)
  step_of s [] [] pos ew er = inl (refl, refl)
  step_of s (d ∷ ds) [] pos ew er = inr (_, start d ds ew (omega (arith, pos, ap length er)) refl)

-- However its goroutines interleave, where at least one lookup may run at a time, `BatchNARInfo`
-- returns: no run of it has more steps than twice the number of digests and one, never run more
-- lookups than the limit, and a run has a further step, or nothing waits or runs. In that case each info is in the
-- result at most as often as looking the digests up in turn finds it, and exactly as often
-- if the group has no error.
pub Reach-in_turn :
    (nar_info : Bytes → Lookup) (limit : ℕ) (digests : List Bytes) (s : Batch)
    (r : Reach nar_info limit (begin digests) s)
    → 0 < limit
    → (steps nar_info limit r ≤ 2 * length digests + 1)
      × (length s.running ≤ limit)
      × (((t : Batch) × Step nar_info limit s t)
          ⊎ ((s.waiting ≡ [])
              × (s.running ≡ [])
              × ((p : NarInfo → Bool)
                  → (count p s.result ≤ count p (in_turn nar_info digests))
                    × (s.failed ≡ false → count p s.result ≡ count p (in_turn nar_info digests)))))
unfolding begin
Reach-in_turn nar_info limit digests s r pos =
    let (bound, rest) = Reach-results nar_info limit digests s r in
    (
      omega (arith, Reach-left nar_info limit (begin digests) s r),
      bound,
      elim (step_of nar_info limit s s.waiting s.running pos refl refl) [
        | inl (w, n) ↦ inr (w, n, rest w n)
        | inr st ↦ inl st
      ],
    )
