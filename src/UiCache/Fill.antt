-- ===== src/UiCache/Fill.antt =====
-- One batch of `uiCacheConn.discover`: how far the inner loop gets.
use nixcached.Prelude.{
  ℕ, suc, ◌+◌, ◌≤◌, ◌<◌, ◌≡◌, refl, true, false, not, arith, ltb, List, [], ◌∷◌, ◌++◌, length,
  length-append, if_rule, ltb→le, ltb→lt, lt→ltb, inl, inr, ◌⊎◌, Bytes,
}
use nixcached.UiCache.{Database}
use nixcached.UiCache.Sql.{Formats}
use nixcached.UiCache.Conn.{Upstream, Filled, is_known, batch_limit, fill}

-- Some element of the list has the property.
abbrev pub Any : {A : Type 0} (P : A → Type 0) → List A → Type 0
Any P [] = ⊥
Any P (x ∷ xs) = P x ⊎ Any P xs

abbrev pub IsIn : Bytes → List Bytes → Type 0
IsIn d ds = Any (λ e. e ≡ d) ds

IsIn-append : (d : Bytes) (xs ys : List Bytes) → IsIn d xs → IsIn d (xs ++ ys)
IsIn-append d [] ys h = elim h [ ]
IsIn-append d (x ∷ xs) ys (inl e) = inl e
IsIn-append d (x ∷ xs) ys (inr h) = inr (IsIn-append d xs ys h)

IsIn-last : (d : Bytes) (xs ys : List Bytes) → IsIn d ys → IsIn d (xs ++ ys)
IsIn-last d [] ys h = h
IsIn-last d (x ∷ xs) ys h = inr (IsIn-last d xs ys h)

-- What the inner loop keeps, from a batch and a number of digests on.
pub record IsFill (ds : List Bytes) (n : ℕ) (f : Filled) : Type 0 where
  pub bound : length f.batch ≤ batch_limit
  pub rest : length f.rest ≤ length ds
  pub count : f.count + length f.rest ≡ n + length ds
  pub end_ : f.ended ≡ true → f.rest ≡ []

module _ (fm : Formats) (up : Upstream) where
  -- To show something of the inner loop: it stops at a full batch, skips a digest, or adds it.
  fill_rule :
      (P : Filled → Type 0) (db : Database) (d : Bytes) (ds batch : List Bytes) (n : ℕ)
      → (batch_limit ≤ length batch
          → P (record { batch = batch; count = n; rest = d ∷ ds; ended = false }))
      → ((up.can_read db d ≡ false) ⊎ (is_known db d ≡ true) → P (fill fm up db ds batch (suc n)))
      → (length batch < batch_limit → P (fill fm up db ds (batch ++ d ∷ []) (suc n)))
      → P (fill fm up db (d ∷ ds) batch n)
  unfolding fill
  fill_rule P db d ds batch n full skipped added =
      if_rule P (not (ltb (length batch) batch_limit)) _ _ (λ e. full (ltb→le _ _ (ground arith)))
        (λ e.
          if_rule P (not (up.can_read db d)) _ _ (λ r. skipped (inl (ground arith)))
            (λ r.
              if_rule P (is_known db d) _ _ (λ k. skipped (inr k))
                (λ k. added (ltb→lt _ _ (ground arith)))))

  -- What holds for a digest less holds for this one, which is counted.
  IsFill-more :
      (d : Bytes) (ds : List Bytes) (n : ℕ) (f : Filled) → IsFill ds (suc n) f → IsFill (d ∷ ds) n f
  IsFill-more d ds n f h = record {
    bound = h.bound;
    rest = omega (arith, h.rest);
    count = omega (arith, h.count);
    end_ = h.end_;
  }

  pub fill-IsFill :
      (db : Database) (ds batch : List Bytes) (n : ℕ)
      → length batch ≤ batch_limit
      → IsFill ds n (fill fm up db ds batch n)
  unfolding fill
  fill-IsFill db [] batch n h = record {
    bound = h;
    rest = omega arith;
    count = refl;
    end_ = λ c. refl;
  }
  fill-IsFill db (d ∷ ds) batch n h =
      fill_rule (IsFill (d ∷ ds) n) db d ds batch n
        (λ e. record {
          bound = h;
          rest = omega arith;
          count = refl;
          end_ = λ c. absurd (ground (arith, c));
        })
        (λ _. IsFill-more d ds n _ (fill-IsFill db ds batch (suc n) h))
        (λ e. IsFill-more d ds n _ (
          fill-IsFill db ds (batch ++ d ∷ []) (suc n)
            (omega (arith, length-append batch (d ∷ []), e))))

  pub fill_progress :
      (db : Database) (ds batch : List Bytes) (n : ℕ)
      → length batch < batch_limit
      → (fill fm up db ds batch n).ended ≡ false
      → length (fill fm up db ds batch n).rest < length ds
  unfolding fill
  fill_progress db [] batch n h e = absurd (cc (lt→ltb (length batch) batch_limit h, e))
  fill_progress db (d ∷ ds) batch n h e =
      fill_rule (λ f. length f.rest < suc (length ds)) db d ds batch n
        (λ c. absurd (omega (arith, c, h)))
        (λ _. omega (arith, (fill-IsFill db ds batch (suc n) (omega (arith, h))).rest))
        (λ c. omega (
          arith,
          (fill-IsFill db ds (batch ++ d ∷ []) (suc n)
              (omega (arith, length-append batch (d ∷ []), h))).rest,
        ))

  -- A digest that the iterator gives is in the batch or known, or left to the next batch.
  pub fill_tracked :
      (db : Database) (k : Bytes) (ds batch : List Bytes) (n : ℕ)
      → up.can_read db k ≡ true
      → IsIn k ds ⊎ IsIn k batch
      → (IsIn k (fill fm up db ds batch n).batch)
        ⊎ (is_known db k ≡ true)
        ⊎ (IsIn k (fill fm up db ds batch n).rest)
  unfolding fill
  fill_tracked db k [] batch n r (inl h) = elim h [ ]
  fill_tracked db k [] batch n r (inr h) = inl h
  fill_tracked db k (d ∷ ds) batch n r h =
      fill_rule (λ f. (IsIn k f.batch) ⊎ (is_known db k ≡ true) ⊎ (IsIn k f.rest)) db d ds batch n
        (λ _. elim h [ inl i ↦ inr (inr i) | inr i ↦ inl i ])
        (λ s. elim h [
          | inl (inl e) ↦
              inr (inl (elim s [ inl c ↦ absurd (cc (r, rw e at c)) | inr c ↦ rw e at c ]))
          | inl (inr i) ↦ fill_tracked db k ds batch (suc n) r (inl i)
          | inr i ↦ fill_tracked db k ds batch (suc n) r (inr i)
        ])
        (λ _. elim h [
          | inl (inl e) ↦
              fill_tracked db k ds (batch ++ d ∷ []) (suc n) r
                (inr (IsIn-last k batch (d ∷ []) (inl e)))
          | inl (inr i) ↦ fill_tracked db k ds (batch ++ d ∷ []) (suc n) r (inl i)
          | inr i ↦
              fill_tracked db k ds (batch ++ d ∷ []) (suc n) r
                (inr (IsIn-append k batch (d ∷ []) i))
        ])
