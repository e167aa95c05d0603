-- ===== src/Serve/Sockets.antt =====
-- The sockets that systemd passes to `runServe` (serve.go).
use nixcached.Prelude.{
  ℕ, ◌+◌, ◌-◌, ◌≡◌, ◌≢◌, arith, refl, ap, ◌∙◌, Bool, true, false, List, [], ◌∷◌, ◌++◌, Option, some,
  Option-cases, Bool-cases, ◌⊎◌, inl, inr, ◌==◌, if_rule, Bytes,
}
use nixcached.Serve.Run.{
  ServedStore, local_store, ssh_store, bucket_store, RunError, Result, err, ok, RunWorld, Resource,
  temp_dir, cache_pool, bucket, Effect, opened, closed, served, discovery_ended, inherited,
  handed_over, wrong_listeners, open_store, serve_store, listen, holding, with_store, run_serve,
}

-- How many of systemd's sockets are open behind some effects.
unfoldable pub sockets_open : ℕ → List Effect → ℕ
sockets_open k [] = k
sockets_open k (inherited n ∷ es) = sockets_open (k + n) es
sockets_open k (handed_over ∷ es) = sockets_open (k - 1) es
sockets_open k (opened r ∷ es) = sockets_open k es
sockets_open k (closed r ∷ es) = sockets_open k es
sockets_open k (served store ∷ es) = sockets_open k es
sockets_open k (discovery_ended store ∷ es) = sockets_open k es

sockets_open-append :
    (k : ℕ) (es fs : List Effect) → sockets_open k (es ++ fs) ≡ sockets_open (sockets_open k es) fs
unfolding sockets_open
sockets_open-append k [] fs = refl
sockets_open-append k (inherited n ∷ es) fs = sockets_open-append (k + n) es fs
sockets_open-append k (handed_over ∷ es) fs = sockets_open-append (k - 1) es fs
sockets_open-append k (opened r ∷ es) fs = sockets_open-append k es fs
sockets_open-append k (closed r ∷ es) fs = sockets_open-append k es fs
sockets_open-append k (served store ∷ es) fs = sockets_open-append k es fs
sockets_open-append k (discovery_ended store ∷ es) fs = sockets_open-append k es fs

-- No socket is left open, or all are whose number is wrong.
abbrev pub Settles : {E : Type 0} → List Effect × Option (RunError E) → Type 0
Settles run =
    (sockets_open 0 run.0 ≡ 0)
    ⊎ ((n : ℕ) × (n ≢ 1) × (run.1 ≡ some (wrong_listeners n)) × (sockets_open 0 run.0 ≡ n))

pub Result-cases :
    {E A : Type 0} (r : Result E A) → ((e : E) × (r ≡ err e)) ⊎ ((x : A) × (r ≡ ok x))
Result-cases (err e) = inl (e, refl)
Result-cases (ok x) = inr (x, refl)

module _ {E : Type 0} (w : RunWorld E) where
  holding-Settles :
      (r : Resource) (run : List Effect × Option (RunError E))
      → Settles run
      → Settles (holding w r run)
  unfolding sockets_open
  holding-Settles r (es, error) h =
      let kept : sockets_open 0 (es ++ closed r ∷ []) ≡ sockets_open 0 es =
        sockets_open-append 0 es (closed r ∷ []) in
      elim h [ inl e ↦ inl (kept ∙ e) | inr (n, m, o, e) ↦ inr (n, m, o, kept ∙ e) ]

  sockets_open-serve_store :
      (k : ℕ) (store : ServedStore) → sockets_open k (serve_store w store).0 ≡ k
  unfolding serve_store sockets_open
  sockets_open-serve_store k store = elim (Bool-cases (w.discovers store)) [
    | inl d ↦ rw d refl
    | inr d ↦ rw d refl
  ]

  listen-Settles : (systemd : Bool) (store : ServedStore) → Settles (listen w systemd store)
  unfolding listen sockets_open
  listen-Settles false store = inl (sockets_open-serve_store 0 store)
  listen-Settles true store = elim (Result-cases w.listeners) [
    | inl (e, o) ↦ rw (o, listen) (inl refl)
    | inr (n, o) ↦
        rw (o, listen)
          (if_rule Settles (n == 1) _ _
            (λ y. inl (
              ap (λ k. sockets_open k (serve_store w store).0) (ground arith)
              ∙ sockets_open-serve_store 0 store))
            (λ y. inr (n, λ e. ground arith, refl, omega arith)))
  ]

  with_store-Settles :
      (systemd : Bool) (store : Result (RunError E) ServedStore)
      → Settles (with_store w systemd store)
  unfolding with_store sockets_open
  with_store-Settles systemd (err e) = inl refl
  with_store-Settles systemd (ok (bucket_store src)) =
      holding-Settles bucket (listen w systemd (bucket_store src))
        (listen-Settles systemd (bucket_store src))
  with_store-Settles systemd (ok (local_store dir)) = listen-Settles systemd (local_store dir)
  with_store-Settles systemd (ok (ssh_store s)) = listen-Settles systemd (ssh_store s)

  pub run_serve-Settles : (src : Bytes) (systemd : Bool) → Settles (run_serve w src systemd)
  unfolding run_serve sockets_open
  run_serve-Settles src systemd = elim (Option-cases w.mkdir_temp) [
    | inr (e, o) ↦ rw (o, run_serve) (inl refl)
    | inl o ↦
        rw (o, run_serve)
          (holding-Settles temp_dir (holding w cache_pool (with_store w systemd (open_store w src)))
            (holding-Settles cache_pool (with_store w systemd (open_store w src))
              (with_store-Settles systemd (open_store w src))))
  ]
