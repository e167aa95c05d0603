-- ===== src/Serve/Balance.antt =====
-- What `runServe` opens is closed again, on every path, and in the right order.
use nixcached.Prelude.{
  ◌≡◌, ap, Bool, true, false, List, [], ◌∷◌, Option, none, some, Option-cases, inl, inr,
  if◌then◌else◌, if_rule, is_empty, Bytes, codes, has_prefix,
}
use nixcached.Download.{Ssh, ssh_exe}
use nixcached.Serve.Run.{
  ServedStore, local_store, ssh_store, bucket_store, RunError, Result, ok, RunWorld, Resource,
  temp_dir, cache_pool, bucket, Effect, opened, closed, served, discovery_ended, inherited,
  handed_over, ssh_directory, open_ssh, open_store,
}
use nixcached.Serve.Sockets.{Result-cases}

abbrev same_resource : Resource → Resource → Bool
same_resource temp_dir temp_dir = true
same_resource cache_pool cache_pool = true
same_resource bucket bucket = true
same_resource q r = false

-- What must be open, the last first, while a store is served or its discovery ends.
abbrev is_ready : ServedStore → List Resource → Bool
is_ready (bucket_store src) (bucket ∷ cache_pool ∷ temp_dir ∷ []) = true
is_ready (local_store dir) (cache_pool ∷ temp_dir ∷ []) = true
is_ready (ssh_store s) (cache_pool ∷ temp_dir ∷ []) = true
is_ready store live = false

-- What is open behind some effects, if only the last resource that is open is closed each time, and
-- stores are served with all that they need.
unfoldable pub balance : List Resource → List Effect → Option (List Resource)
balance live [] = some live
balance live (opened r ∷ es) = balance (r ∷ live) es
balance [] (closed r ∷ es) = none
balance (q ∷ live) (closed r ∷ es) =
    let rest = balance live es in if same_resource q r then rest else none
balance live (inherited n ∷ es) = balance live es
balance live (handed_over ∷ es) = balance live es
balance live (served store ∷ es) =
    let rest = balance live es in if is_ready store live then rest else none
balance live (discovery_ended store ∷ es) =
    let rest = balance live es in if is_ready store live then rest else none

-- Nothing is left open, and nothing is closed that was open before.
abbrev pub Balanced : List Resource → List Effect → Type 0
Balanced live es = balance live es ≡ some live

module _ {E : Type 0} (w : RunWorld E) where
  -- The store behind ssh, if it is one, has the client of the variable and no other program.
  abbrev Configures : Result (RunError E) ServedStore → Type 0
  Configures r =
      (s : Ssh) → r ≡ ok (ssh_store s) → (s.ssh_executable ≡ w.ssh_variable) × (s.executable ≡ [])

  open_ssh-Configures : (src : Bytes) → Configures (open_ssh w src)
  unfolding open_ssh
  open_ssh-Configures src = elim (Result-cases (w.parse_url src)) [
    | inl (e, o) ↦ rw (o, open_ssh) (λ s h. cc h)
    | inr (u, o) ↦ elim (Result-cases (ssh_directory w u)) [
      | inl (e, d) ↦ rw (o, open_ssh, d) (λ s h. cc h)
      | inr (dir, d) ↦
          rw (o, open_ssh, d)
            (λ s h.
              let t : Ssh = record {
                host = u.host;
                username = u.username;
                directory = dir;
                ssh_executable = w.ssh_variable;
                executable = [];
              } in
              let q : s ≡ t = cc h in
              (ap (λ (x : Ssh). x.ssh_executable) q, ap (λ (x : Ssh). x.executable) q))
    ]
  ]

  open_store-Configures : (src : Bytes) → Configures (open_store w src)
  unfolding open_store
  open_store-Configures src =
      if_rule Configures (has_prefix (codes "/") src) _ _
        (λ a. elim (Result-cases (w.clean_store_directory src)) [
          | inl (e, o) ↦ rw o (λ s h. cc h)
          | inr (dir, o) ↦ rw o (λ s h. cc h)
        ])
        (λ a.
          if_rule Configures (has_prefix (codes "ssh://") src) _ _ (λ b. open_ssh-Configures src)
            (λ b. elim (Option-cases w.new_bucket_opener) [
              | inr (e, o) ↦ rw o (λ s h. cc h)
              | inl o ↦ elim (Option-cases (w.open_bucket src)) [
                | inr (e, q) ↦ rw (o, q) (λ s h. cc h)
                | inl q ↦ rw (o, q) (λ s h. cc h)
              ]
            ]))

  -- The client that `runServe` configures for a store behind ssh is never run: whatever the variable
  -- SSH holds, the program is `ssh`.
  pub open_store-ssh_exe :
      (src : Bytes) (s : Ssh)
      → open_store w src ≡ ok (ssh_store s)
      → (s.ssh_executable ≡ w.ssh_variable) × (ssh_exe s ≡ codes "ssh")
  unfolding ssh_exe
  open_store-ssh_exe src s h =
      let (c, x) = open_store-Configures src s h in
      (c, ap (λ e. if is_empty e then codes "ssh" else s.ssh_executable) x)
