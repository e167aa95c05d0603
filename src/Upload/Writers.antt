-- ===== src/Upload/Writers.antt =====
-- The contract of `io.Writer` and of the compressors, and what it says of `hashWriter` (upload.go).
use nixcached.Prelude.{
  ℕ, ◌+◌, ◌≤◌, ◌≡◌, refl, sym, ap, ◌∙◌, arith, List, [], ◌∷◌, ◌++◌, append-nil, append_assoc,
  Option, none, some, some_inj, take_exact, zero, suc, ◌⊎◌, inl, inr, length, length-append, take,
  concat, Bytes,
}
use nixcached.Upload.Stream.{
  Write, HashWriter, hash_write, Compressor, nop_write_closer, Outcome, hangs, fails, returns,
  Lister, pass_on, send_chunks,
}

-- The contract of `io.Writer`: no more is taken than was given, and less only with an error.
pub record IsWriter {S E : Type 0} (write : Write S E) : Type 0 where
  pub within : (s : S) (p : Bytes) → (write s p).1.0 ≤ length p
  pub full : (s : S) (p : Bytes) → (write s p).1.1 ≡ none → (write s p).1.0 ≡ length p

-- A compressor changes the writer it was opened on by writes alone.
pub record WritesInside {W E : Type 0} (write : Write W E) (compress : Compressor W E)
    : Type 1 where
  pub opened :
      (P : W → Type 0) (w : W) (s : compress.State)
      → compress.open_on w ≡ some s
      → P w
      → P (compress.inner s)
  pub written :
      (P : W → Type 0)
      → ((v : W) (q : Bytes) → P v → P (write v q).0)
      → (s : compress.State) (p : Bytes) → P (compress.inner s)
      → P (compress.inner (compress.write s p).0)
  pub closed :
      (P : W → Type 0)
      → ((v : W) (q : Bytes) → P v → P (write v q).0)
      → (s : compress.State) → P (compress.inner s)
      → P (compress.inner (compress.close s).0)

pub nop-WritesInside :
    {W E : Type 0} (write : Write W E) → WritesInside write (nop_write_closer write)
nop-WritesInside write = record {
  opened = λ P w s e p. rw (sym (some_inj e)) p;
  written = λ P h s p i. h s p i;
  closed = λ P h s i. i;
}

pub length-take : (n : ℕ) (p : Bytes) → n ≤ length p → length (take n p) ≡ n
length-take zero p h = refl
length-take (suc n) [] h = absurd (omega arith)
length-take (suc n) (c ∷ p) h = ap suc (length-take n p (omega arith))

pub take_all : (n : ℕ) (p : Bytes) → n ≡ length p → take n p ≡ p
take_all n p h = rw (append-nil p) at (take_exact p [] n h)

pub Outcome-cases {ℓ} :
    {A : Type ℓ} (o : Outcome A) → (o ≡ hangs) ⊎ ((o ≡ fails) ⊎ ((a : A) × (o ≡ returns a)))
Outcome-cases hangs = inl refl
Outcome-cases fails = inr (inl refl)
Outcome-cases (returns a) = inr (inr (a, refl))

pub hash_write-IsWriter :
    {S E : Type 0} (write : Write S E) → IsWriter write → IsWriter (hash_write write)
unfolding hash_write
hash_write-IsWriter write h = record {
  within = λ s p. h.within s.inner p;
  full = λ s p e. h.full s.inner p e;
}

module _ {E C L : Type 0} (write : Write C E) (lister : Lister L) (law : IsWriter write)
    (P : C → Type 0) (keeps : (c : C) (p : Bytes) → P c → P (write c p).0) where
  -- A write that is passed on had no error.
  pass_on-ok :
      (l : Option lister.State) (p : Bytes) (r : ℕ × Option E) (l' : Option lister.State)
      → pass_on write lister l p r ≡ returns l'
      → r.1 ≡ none
  unfolding pass_on
  pass_on-ok l p (n, some e) l' h = cc h
  pass_on-ok l p (n, none) l' h = refl

  abbrev Through : HashWriter C → Bytes → HashWriter C → Type 0
  Through w nar w' = (w'.fed ≡ w.fed ++ nar) × (w'.n ≡ w.n + length nar) × P w'.inner

  Through-write :
      (w : HashWriter C) (p nar : Bytes) (w' : HashWriter C)
      → (write w.inner p).1.1 ≡ none
      → Through (hash_write write w p).0 nar w'
      → Through w (p ++ nar) w'
  unfolding hash_write
  Through-write w p nar w' e (f, n, i) =
      let all : (write w.inner p).1.0 ≡ length p = law.full w.inner p e in
      (
        f
            ∙ ap (λ q. (w.fed ++ q) ++ nar) (take_all (write w.inner p).1.0 p all)
            ∙ append_assoc w.fed p nar,
        omega (arith, n, all, length-append p nar),
        i,
      )

  kept : (w : HashWriter C) (p : Bytes) → P w.inner → P (hash_write write w p).0.inner
  unfolding hash_write
  kept w p i = keeps w.inner p i

  -- All chunks went through the hash, and to the writer behind it.
  pub send_chunks_rule :
      (l : Option lister.State) (w : HashWriter C) (ps : List Bytes) (l' : Option lister.State)
      (w' : HashWriter C)
      → send_chunks write lister l w ps ≡ returns (l', w')
      → P w.inner
      → Through w (concat ps) w'
  unfolding send_chunks hash_write
  send_chunks_rule l w [] l' w' h i =
      let q : w' ≡ w = cc h in rw q (sym (append-nil w.fed), omega arith, i)
  send_chunks_rule l w (p ∷ ps) l' w' h i =
      elim (Outcome-cases (pass_on write lister l p (hash_write write w p).1)) [
        | inl o ↦ cc (rw (o, send_chunks) at h)
        | inr (inl o) ↦ cc (rw (o, send_chunks) at h)
        | inr (inr (l₁, o)) ↦
            Through-write w p (concat ps) w' (pass_on-ok l p (hash_write write w p).1 l₁ o) (
              send_chunks_rule l₁ (hash_write write w p).0 ps l' w' (rw (o, send_chunks) at h)
                (kept w p i))
      ]
