-- ===== src/Intake/Jobs/Bounds.antt =====
-- How many uploads run at the same time, and what becomes of them.
use nixcached.Prelude.{
  ℕ, ◌+◌, ◌≤◌, ◌≡◌, refl, ap, Bool, true, false, arith, List, [], ◌∷◌, length, length-append, count,
  count-append,
}
use nixcached.Intake.Jobs.{
  Jobs, taken, Step, start, finish, stop, end_context, cancel, fill, return_, Reach, here, next,
  begin,
}

module _ {J : Type 0} (limit : ℕ) (jobs : List J) where
  pub record IsBounded (s : Jobs J) : Type 0 where
    pub bound : taken s ≤ limit
    pub kept :
        (p : J → Bool) → count p s.waiting + count p s.running + count p s.done ≡ count p jobs
    pub after : s.returned ≡ true → s.filled ≡ limit
    pub idle : s.stopped ≡ false → s.filled ≡ 0
    pub left_over : s.stopped ≡ true → s.cancelled ≡ false → s.waiting ≡ []
    pub stopped_first : s.returned ≡ true → s.stopped ≡ true

  begin-IsBounded : IsBounded (begin jobs)
  unfolding begin
  begin-IsBounded = record {
    bound = omega arith;
    kept = λ p. omega arith;
    after = λ e. cc e;
    idle = λ e. refl;
    left_over = λ e. cc e;
    stopped_first = λ e. cc e;
  }

  Step-IsBounded : (s t : Jobs J) → Step limit s t → IsBounded s → IsBounded t
  Step-IsBounded s t (start x xs a w lt e) h = rw e (record {
    bound = omega (arith, lt);
    kept = λ p. omega (arith, h.kept p, ap (count p) w);
    after = h.after;
    idle = h.idle;
    left_over = λ q. cc (a, q);
    stopped_first = h.stopped_first;
  })
  Step-IsBounded s t (finish xs ys x r e) h = rw e (record {
    bound = omega (arith, h.bound, ap length r, length-append xs (x ∷ ys), length-append xs ys);
    kept = λ p.
        omega (arith, h.kept p, ap (count p) r, count-append p xs (x ∷ ys), count-append p xs ys);
    after = h.after;
    idle = h.idle;
    left_over = h.left_over;
    stopped_first = h.stopped_first;
  })
  Step-IsBounded s t (stop a w e) h = rw e (record {
    bound = h.bound;
    kept = h.kept;
    after = h.after;
    idle = λ q. cc q;
    left_over = λ q c. w;
    stopped_first = λ q. refl;
  })
  Step-IsBounded s t (end_context c e) h = rw e (record {
    bound = h.bound;
    kept = h.kept;
    after = h.after;
    idle = h.idle;
    left_over = λ q c. cc c;
    stopped_first = h.stopped_first;
  })
  Step-IsBounded s t (cancel a c e) h = rw e (record {
    bound = h.bound;
    kept = h.kept;
    after = h.after;
    idle = λ q. cc q;
    left_over = λ q n. cc (c, n);
    stopped_first = λ q. refl;
  })
  Step-IsBounded s t (fill a f lt e) h = rw e (record {
    bound = omega (arith, lt);
    kept = h.kept;
    after = λ q. absurd (omega (arith, h.after q, f));
    idle = λ q. cc (a, q);
    left_over = h.left_over;
    stopped_first = h.stopped_first;
  })
  Step-IsBounded s t (return_ a n f e) h = rw e (record {
    bound = h.bound;
    kept = h.kept;
    after = λ _. f;
    idle = h.idle;
    left_over = h.left_over;
    stopped_first = λ _. a;
  })

  pub Reach-IsBounded : (s : Jobs J) → Reach limit (begin jobs) s → IsBounded s
  Reach-IsBounded s here = begin-IsBounded
  Reach-IsBounded s (next {t} r st) = Step-IsBounded t s st (Reach-IsBounded t r)

  none_running : (xs : List J) (n : ℕ) → length xs + n ≤ limit → n ≡ limit → xs ≡ []
  none_running [] n b e = refl
  none_running (x ∷ xs) n b e = absurd (omega (arith, b, e))

  -- The limit, and what is left when the function has returned.
  pub Reach-waits :
      (s : Jobs J)
      → Reach limit (begin jobs) s
      → (length s.running ≤ limit)
        × (s.returned ≡ true
            → (s.running ≡ [])
              × ((p : J → Bool) → count p s.waiting + count p s.done ≡ count p jobs)
              × (s.cancelled ≡ false → (p : J → Bool) → count p s.done ≡ count p jobs))
  Reach-waits s r =
      let h = Reach-IsBounded s r in
      (
        omega (arith, h.bound),
        λ q.
            let over = none_running s.running s.filled h.bound (h.after q) in
            (
              over,
              λ p. omega (arith, h.kept p, ap (count p) over),
              λ c p. omega (
                arith,
                h.kept p,
                ap (count p) over,
                ap (count p) (h.left_over (h.stopped_first q) c),
              ),
            ),
      )
