-- ===== src/Stores/SshList.antt =====
-- The listing of a store behind ssh: `(*SSH).list` (internal/nixstore/ssh.go), which runs the sftp
-- client over a process. The process and the client are arguments.
use nixcached.Prelude.{
  ◌≡◌, sym, ap, ◌∙◌, Bool, true, false, List, [], ◌∷◌, ◌++◌, Option, none, some, some_inj,
  Option-cases, inl, inr, count, Bytes,
}
use nixcached.Nix.{Nix, DigestFirst}
use nixcached.HashPart.{query_path}
use nixcached.HashPart.Correct.{query_path-sorted}
use nixcached.UiCache.Sorting.{sort_names, sort_names-IsSorted, sort_names-count}

-- What is opened, and given back.
pub data Handle : Type 0 where
  pipe_in : Handle
  process : Handle
  client : Handle

pub data SessionStep : Type 0 where
  gets : Handle → SessionStep
  gives_back : Handle → SessionStep

-- The errors of the calls, and what `ReadDir` gives.
pub record Session (E : Type 0) : Type 0 where
  pub stdin_pipe : Option E
  pub stdout_pipe : Option E
  pub start : Option E
  pub new_client : Option E
  pub read_dir : Option (List Bytes)

module _ {E : Type 0} (s : Session E) where
  -- With the client.
  unfoldable pub read_entries : List SessionStep × Option (List Bytes)
  read_entries =
      let entries : Option (List Bytes) = elim s.read_dir [
        | none ↦ none
        | some names ↦ some (sort_names names)
      ] in
      (gets client ∷ gives_back client ∷ [], entries)

  -- With the process, which is cancelled and waited for at the end. It has taken the pipe over.
  unfoldable pub with_process : List SessionStep × Option (List Bytes)
  with_process =
      let (steps, entries) = read_entries in
      elim s.new_client [
        | some e ↦ (gets process ∷ gives_back process ∷ [], none)
        | none ↦ (gets process ∷ (steps ++ gives_back process ∷ []), entries)
      ]

  unfoldable pub ssh_list : List SessionStep × Option (List Bytes)
  ssh_list = elim s.stdin_pipe [
    | some e ↦ ([], none)
    | none ↦ elim s.stdout_pipe [
      | some e ↦ (gets pipe_in ∷ gives_back pipe_in ∷ [], none)
      | none ↦ elim s.start [
        | some e ↦ (gets pipe_in ∷ gives_back pipe_in ∷ [], none)
        | none ↦
            let (steps, entries) = with_process in
            (gets pipe_in ∷ (steps ++ gives_back pipe_in ∷ []), entries)
      ]
    ]
  ]

module _ {E : Type 0} (s : Session E) where
  with_process-entries :
      (entries : List Bytes)
      → (with_process s).1 ≡ some entries
      → (names : List Bytes) × (s.read_dir ≡ some names) × (entries ≡ sort_names names)
  unfolding with_process read_entries
  with_process-entries entries h = elim (Option-cases s.new_client) [
    | inr (e, c) ↦ cc (rw (c, with_process) at h)
    | inl c ↦ elim (Option-cases s.read_dir) [
      | inl r ↦ cc (rw (c, with_process, r, read_entries) at h)
      | inr (names, r) ↦
          let q : some (sort_names names) ≡ some entries =
            rw (c, with_process, r, read_entries) at h in
          (names, r, sym (some_inj q))
    ]
  ]

  ssh_list-entries :
      (entries : List Bytes)
      → (ssh_list s).1 ≡ some entries
      → (names : List Bytes) × (s.read_dir ≡ some names) × (entries ≡ sort_names names)
  unfolding ssh_list
  ssh_list-entries entries h = elim (Option-cases s.stdin_pipe) [
    | inr (e, a) ↦ cc (rw (a, ssh_list) at h)
    | inl a ↦ elim (Option-cases s.stdout_pipe) [
      | inr (e, b) ↦ cc (rw (a, ssh_list, b) at h)
      | inl b ↦ elim (Option-cases s.start) [
        | inr (e, c) ↦ cc (rw (a, ssh_list, b, c) at h)
        | inl c ↦ with_process-entries entries (rw (a, ssh_list, b, c) at h)
      ]
    ]
  ]

  -- Where the listing behind ssh succeeds, its entries are those that the server gave, each as often,
  -- and the lookup of any digest that narrows them as a sorted listing finds what the plain loop over
  -- all of them finds, where names begin with their digest.
  pub ssh_list-query_path :
      (nix : Nix)
      → DigestFirst nix
      → (dir : Bytes) (entries : List Bytes) → (ssh_list s).1 ≡ some entries
      → (names : List Bytes) × (s.read_dir ≡ some names)
        × ((p : Bytes → Bool) → count p entries ≡ count p names)
        × ((digest : Bytes)
            → query_path nix dir entries true digest ≡ query_path nix dir entries false digest)
  ssh_list-query_path nix first dir entries h =
      let (names, r, q) = ssh_list-entries entries h in
      (
        names,
        r,
        λ p. ap (count p) q ∙ sort_names-count p names,
        λ digest. query_path-sorted nix first dir digest entries (rw q (sort_names-IsSorted names)),
      )
