-- ===== src/Listing/Failures.antt =====
-- List iterators of which a call for more fails.
use nixcached.Prelude.{
  ℕ, suc, Option, ◌≡◌, refl, ◌&&◌, not, List, [], ◌∷◌, none, some, Option-cases, Bool-cases, inl,
  inr, ◌⊎◌, Bytes,
}
use nixcached.Nix.{Nix}
use nixcached.NarUrl.{is_nar_info_path}
use nixcached.Listing.{
  Next, digest, ended, failed, drain, Read, context_ended, chunk, fails, from_buffer, read_next,
  local_next, Listed, bucket_next,
}

pub Next-cases :
    {S : Type 0} (n : Next S)
    → (n ≡ ended) ⊎ (n ≡ failed) ⊎ ((d : Bytes) × (t : S) × (n ≡ digest d t))
Next-cases (digest d t) = inr (inr (d, t, refl))
Next-cases ended = inl refl
Next-cases failed = inr (inl refl)

-- A call fails, or the context has ended.
abbrev pub HasFailure : List Read → Type 0
HasFailure [] = ⊥
HasFailure (chunk name names ∷ reads) = HasFailure reads
HasFailure (context_ended ∷ reads) = Unit {0}
HasFailure (fails ∷ reads) = Unit {0}

abbrev pub HasError : List (Option Listed) → Type 0
HasError [] = ⊥
HasError (none ∷ objs) = Unit {0}
HasError (some obj ∷ objs) = HasError objs

-- An answer on the way to an error.
abbrev pub Fails : {S : Type 0} → (S → Type 0) → Next S → Type 0
Fails Bad (digest d t) = Bad t
Fails Bad ended = ⊥
Fails Bad failed = Unit {0}

pub drain-Fails :
    {S : Type 0} (step : S → Next S) (Bad : S → Type 0)
    → ((s : S) → Bad s → Fails Bad (step s))
    → (fuel : ℕ) (s : S) → Bad s
    → drain step fuel s ≡ none
unfolding drain
drain-Fails step Bad g ℕ.zero s b = refl
drain-Fails step Bad g (suc fuel) s b = elim (Next-cases (step s)) [
  | inl n ↦ elim (rw n at (g s b)) [ ]
  | inr (inl n) ↦ rw (n, drain) refl
  | inr (inr (d, t, n)) ↦ rw (n, drain, drain-Fails step Bad g fuel t (rw n at (g s b))) refl
]

module _ (nix : Nix) where
  from_buffer-Fails :
      {S : Type 0} (Bad : S → Type 0) (state : List Bytes → S) (more : Next S) (buf : List Bytes)
      → ((b : List Bytes) → Bad (state b))
      → Fails Bad more
      → Fails Bad (from_buffer nix state more buf)
  unfolding from_buffer
  from_buffer-Fails Bad state more [] b f = f
  from_buffer-Fails Bad state more (name ∷ buf) b f =
      elim (Option-cases (nix.object nix.default_dir name)) [
        | inl e ↦ rw (e, from_buffer) (from_buffer-Fails Bad state more buf b f)
        | inr (p, e) ↦ rw (e, from_buffer) (b buf)
      ]

  abbrev pub Breaks : List Bytes × List Read → Type 0
  Breaks (buf, reads) = HasFailure reads

  read-Fails : (reads : List Read) → HasFailure reads → Fails Breaks (read_next nix reads)
  unfolding read_next
  read-Fails [] h = elim h [ ]
  read-Fails (context_ended ∷ reads) h = tt
  read-Fails (fails ∷ reads) h = tt
  read-Fails (chunk name names ∷ reads) h =
      from_buffer-Fails Breaks (λ b. (b, reads)) (read_next nix reads) (name ∷ names) (λ b. h)
        (read-Fails reads h)

  pub local-Fails : (s : List Bytes × List Read) → Breaks s → Fails Breaks (local_next nix s)
  unfolding local_next
  local-Fails (buf, reads) h =
      from_buffer-Fails Breaks (λ b. (b, reads)) (read_next nix reads) buf (λ b. h)
        (read-Fails reads h)

  pub bucket-Fails :
      (objs : List (Option Listed)) → HasError objs → Fails HasError (bucket_next nix objs)
  unfolding bucket_next
  bucket-Fails [] h = elim h [ ]
  bucket-Fails (none ∷ more) h = tt
  bucket-Fails (some obj ∷ more) h =
      elim (Bool-cases (not obj.is_dir && is_nar_info_path nix obj.key)) [
        | inl e ↦ rw e h
        | inr e ↦ rw e (bucket-Fails more h)
      ]
