-- ===== src/Listing/Drain.antt =====
-- What the iterators give, from the first call to the end.
use nixcached.Prelude.{
  ℕ, suc, Option, ◌≡◌, sym, ap, ◌&&◌, not, arith, List, [], ◌∷◌, ◌++◌, length, map, keep, none,
  some, inl, inr, Bytes,
}
use nixcached.Nix.{Nix}
use nixcached.NarUrl.{is_nar_info_path}
use nixcached.Serve.{trim_suffix}
use nixcached.Listing.{
  Next, digest, ended, failed, drain, Read, context_ended, chunk, fails, Listed,
}
use nixcached.Listing.Failures.{Next-cases}

-- An answer that goes with the digests to come, where `rest` is what comes from each state, and
-- `Fine` keeps errors away.
abbrev pub Gives : {S : Type 0} → (S → Type 0) → (S → List Bytes) → Next S → List Bytes → Type 0
Gives Fine rest (digest d t) ds = (ds ≡ d ∷ rest t) × Fine t
Gives Fine rest ended ds = ds ≡ []
Gives Fine rest failed ds = ⊥

pub drain-rest :
    {S : Type 0} (step : S → Next S) (Fine : S → Type 0) (rest : S → List Bytes)
    → ((s : S) → Fine s → Gives Fine rest (step s) (rest s))
    → (fuel : ℕ) (s : S) → Fine s
    → suc (length (rest s)) ≡ fuel
    → drain step fuel s ≡ some (rest s)
unfolding drain
drain-rest step Fine rest g ℕ.zero s h e = absurd (omega (arith, e))
drain-rest step Fine rest g (suc fuel) s h e = elim (Next-cases (step s)) [
  | inl n ↦ rw (n, drain) (ap some (sym (rw n at (g s h))))
  | inr (inl n) ↦ elim (rw n at (g s h)) [ ]
  | inr (inr (d, t, n)) ↦
      let (r, f) = rw n at (g s h) in
      rw (n, drain, drain-rest step Fine rest g fuel t f (omega (arith, e, ap length r)))
        (ap some (sym r))
]

-- The entries that the calls of `ReadDir` give, of which none fails.
abbrev pub names_of : List Read → List Bytes
names_of [] = []
names_of (chunk name names ∷ reads) = name ∷ (names ++ names_of reads)
names_of (context_ended ∷ reads) = []
names_of (fails ∷ reads) = []

abbrev pub Succeeds : List Read → Type 0
Succeeds [] = Unit {0}
Succeeds (chunk name names ∷ reads) = Succeeds reads
Succeeds (context_ended ∷ reads) = ⊥
Succeeds (fails ∷ reads) = ⊥

module _ (nix : Nix) where
  -- The digests of the entries that are store objects.
  unfoldable pub digests_of : List Bytes → List Bytes
  digests_of [] = []
  digests_of (name ∷ names) =
      let rest = digests_of names in
      elim (nix.object nix.default_dir name) [ none ↦ rest | some p ↦ nix.digest p ∷ rest ]

  abbrev Works : List Bytes × List Read → Type 0
  Works (buf, reads) = Succeeds reads

  abbrev to_come : List Bytes × List Read → List Bytes
  to_come (buf, reads) = digests_of (buf ++ names_of reads)

  -- The digests of the `.narinfo` files at the root of a bucket.
  unfoldable pub nar_infos_of : List Listed → List Bytes
  nar_infos_of objs =
      map (λ (o : Listed). trim_suffix nix.nar_info_extension o.key)
        (keep (λ (o : Listed). not o.is_dir && is_nar_info_path nix o.key) objs)

  -- What the calls of `Next` give, if none fails.
  abbrev objects_of : List (Option Listed) → List Listed
  objects_of [] = []
  objects_of (none ∷ objs) = []
  objects_of (some obj ∷ objs) = obj ∷ objects_of objs

  abbrev NoError : List (Option Listed) → Type 0
  NoError [] = Unit {0}
  NoError (none ∷ objs) = ⊥
  NoError (some obj ∷ objs) = NoError objs
