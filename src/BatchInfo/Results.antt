-- ===== src/BatchInfo/Results.antt =====
-- `BatchNARInfo` finds what looking the digests up in turn finds, whatever the order of its goroutines.
use nixcached.Prelude.{
  ℕ, ◌+◌, ◌≤◌, ◌≡◌, ◌≢◌, refl, ap, Bool, true, false, arith, List, [], ◌∷◌, ◌++◌, length,
  length-append, count, count-append, Bytes,
}
use nixcached.Upload.{NarInfo}
use nixcached.Serve.{Lookup, hit, missing}
use nixcached.BatchInfo.{
  Batch, Step, start, append, skip, fail, cancel, Reach, here, next, one, in_turn, begin,
}

module _ (nar_info : Bytes → Lookup) where
  -- How many infos that pass a test these digests lead to.
  abbrev found : (NarInfo → Bool) → List Bytes → ℕ
  found p ds = count p (in_turn nar_info ds)

  found-cons :
      (p : NarInfo → Bool) (d : Bytes) (ds : List Bytes)
      → found p (d ∷ ds) ≡ count p (one (nar_info d)) + found p ds
  unfolding in_turn
  found-cons p d ds = count-append p (one (nar_info d)) (in_turn nar_info ds)

  -- The digest of one goroutine, among those of the others.
  found-split :
      (p : NarInfo → Bool) (xs ys : List Bytes) (d : Bytes)
      → found p (xs ++ d ∷ ys) ≡ count p (one (nar_info d)) + found p (xs ++ ys)
  found-split p [] ys d = found-cons p d ys
  found-split p (x ∷ xs) ys d =
      omega (arith, found-cons p x (xs ++ d ∷ ys), found-cons p x (xs ++ ys), found-split p xs ys d)

  none_found : (p : NarInfo → Bool) → found p [] ≡ 0
  unfolding in_turn
  none_found p = refl

  one-hit :
      (p : NarInfo → Bool) (d : Bytes) (info : NarInfo)
      → nar_info d ≡ hit info
      → count p (one (nar_info d)) ≡ count p (info ∷ [])
  one-hit p d info e = rw e refl

  one-missing :
      (p : NarInfo → Bool) (d : Bytes) → nar_info d ≡ missing → count p (one (nar_info d)) ≡ 0
  one-missing p d e = rw e refl

  record IsPartial (limit : ℕ) (digests : List Bytes) (s : Batch) : Type 0 where
    bound : length s.running ≤ limit
    at_most :
        (p : NarInfo → Bool)
        → found p s.waiting + found p s.running + count p s.result ≤ found p digests
    all :
        s.failed ≡ false
        → (p : NarInfo → Bool)
        → found p s.waiting + found p s.running + count p s.result ≡ found p digests

  module _ (limit : ℕ) (digests : List Bytes) where
    begin-IsPartial : IsPartial limit digests (begin digests)
    unfolding begin in_turn
    begin-IsPartial = record {
      bound = omega arith;
      at_most = λ p. omega arith;
      all = λ _ p. omega arith;
    }

    Step-IsPartial :
        (s t : Batch)
        → Step nar_info limit s t
        → IsPartial limit digests s
        → IsPartial limit digests t
    Step-IsPartial s t (start d ds w lt e) h = rw e (record {
      bound = omega (arith, lt);
      at_most = λ p.
          omega (arith, h.at_most p, ap (found p) w, found-cons p d ds, found-cons p d s.running);
      all = λ q p.
          omega (arith, h.all q p, ap (found p) w, found-cons p d ds, found-cons p d s.running);
    })
    Step-IsPartial s t (append xs ys d info r i e) h = rw e (record {
      bound = omega (arith, h.bound, ap length r, length-append xs (d ∷ ys), length-append xs ys);
      at_most = λ p. omega (
        arith,
        h.at_most p,
        ap (found p) r,
        found-split p xs ys d,
        one-hit p d info i,
        count-append p s.result (info ∷ []),
      );
      all = λ q p. omega (
        arith,
        h.all q p,
        ap (found p) r,
        found-split p xs ys d,
        one-hit p d info i,
        count-append p s.result (info ∷ []),
      );
    })
    Step-IsPartial s t (skip xs ys d r i e) h = rw e (record {
      bound = omega (arith, h.bound, ap length r, length-append xs (d ∷ ys), length-append xs ys);
      at_most =
          λ p. omega (arith, h.at_most p, ap (found p) r, found-split p xs ys d, one-missing p d i);
      all =
          λ q p. omega (arith, h.all q p, ap (found p) r, found-split p xs ys d, one-missing p d i);
    })
    Step-IsPartial s t (fail xs ys d r i e) h = rw e (record {
      bound = omega (arith, h.bound, ap length r, length-append xs (d ∷ ys), length-append xs ys);
      at_most = λ p. omega (arith, h.at_most p, ap (found p) r, found-split p xs ys d);
      all = λ q p. absurd (differ q);
    })
      where
        differ : true ≢ false
        differ e = cc e
    Step-IsPartial s t (cancel c e) h =
        rw e (record { bound = h.bound; at_most = h.at_most; all = h.all })

    Reach-IsPartial :
        (s : Batch) → Reach nar_info limit (begin digests) s → IsPartial limit digests s
    Reach-IsPartial s here = begin-IsPartial
    Reach-IsPartial s (next {t = t} r st) = Step-IsPartial t s st (Reach-IsPartial t r)

-- The limit, and the results when nothing waits or runs.
pub Reach-results :
    (nar_info : Bytes → Lookup) (limit : ℕ) (digests : List Bytes) (s : Batch)
    → Reach nar_info limit (begin digests) s
    → (length s.running ≤ limit)
      × (s.waiting ≡ []
          → s.running ≡ []
          → (p : NarInfo → Bool)
          → (count p s.result ≤ count p (in_turn nar_info digests))
            × (s.failed ≡ false → count p s.result ≡ count p (in_turn nar_info digests)))
Reach-results nar_info limit digests s r =
    let h = Reach-IsPartial nar_info limit digests s r in
    (
      h.bound,
      λ w n p. (
        omega (arith, h.at_most p),
        λ q. omega (
          arith,
          h.all q p,
          ap (found nar_info p) w,
          ap (found nar_info p) n,
          none_found nar_info p,
        ),
      ),
    )
