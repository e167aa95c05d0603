-- ===== src/Stores/Commands.antt =====
-- The processes that the local store and the store behind ssh start (`newCommand` of
-- internal/nixstore/local.go and ssh.go), the queries of the local store, and how the two stores say
-- what they are and open their listings. A process is what is given to os/exec.
use nixcached.Prelude.{
  ℕ, suc, ◌≡◌, ◌≢◌, refl, ap, ◌∙◌, Bool, true, false, arith, List, [], ◌∷◌, ◌++◌, Option, none,
  some, inl, inr, Option-cases, if◌then◌else◌, is_empty, Bytes, codes, cut_prefix,
  cut_prefix-append, contains_byte,
}
use nixcached.Nix.{Nix}
use nixcached.Upload.{NarInfo}
use nixcached.Shell.{command_arg}
use nixcached.Shell.Reader.{words}
use nixcached.Shell.RoundTrip.{words-command_arg}
use nixcached.Listing.{Next, digest, ended, failed, drain}
use nixcached.Download.{Ssh, exe, ssh_exe, ssh_destination, dir_or_default}
use nixcached.Listing.Failures.{Next-cases}
use nixcached.Stores.{Cli, path_info_from_cli}

pub record Local : Type 0 where
  pub directory : Bytes
  pub executable : Bytes

-- `exe`
unfoldable pub local_exe : Local → Bytes
local_exe l = if is_empty l.executable then codes "nix" else l.executable

-- `dir`
abbrev pub local_dir : Nix → Local → Bytes
local_dir nix l = dir_or_default nix l.directory

pub record Process : Type 0 where
  pub path : Bytes
  pub args : List Bytes
  pub env : List Bytes

-- `(*Local).newCommand`, from the environment of the program.
unfoldable pub new_local_command : Nix → Local → List Bytes → List Bytes → Process
new_local_command nix l environ args = record {
  path = local_exe l;
  args = args;
  env = environ ++ (codes "NIX_STORE_DIR=" ++ local_dir nix l) ∷ [];
}

-- `(*SSH).newCommand`
unfoldable pub new_ssh_command :
    Nix → (Bytes → Bytes) → (Bytes → Bytes) → Ssh → List Bytes → List Bytes → Process
new_ssh_command nix hostname port s environ args = record {
  path = ssh_exe s;
  args =
      codes "--"
      ∷ ssh_destination hostname port s
      ∷ command_arg (dir_or_default nix s.directory) (exe s) args
      ∷ [];
  env = environ;
}

-- `(*Local).Query` and `(*Local).QueryRecursive`, by the nix command of the local store.
unfoldable pub query_paths : Cli → List Bytes → Option (List NarInfo)
query_paths cli installables = path_info_from_cli cli false false installables

unfoldable pub query_recursive : Cli → List Bytes → Option (List NarInfo)
query_recursive cli installables = path_info_from_cli cli false true installables

pub record CacheInfo : Type 0 where
  pub store_directory : Bytes
  pub want_mass_query : Bool

-- `(*Local).CacheInfo` and `(*SSH).CacheInfo`
unfoldable pub local_cache_info : Nix → Local → CacheInfo
local_cache_info nix l = record { store_directory = local_dir nix l; want_mass_query = true }

unfoldable pub ssh_cache_info : Nix → Ssh → CacheInfo
ssh_cache_info nix s = record {
  store_directory = dir_or_default nix s.directory;
  want_mass_query = false;
}

-- What `List` returns: the iterator over what was opened, or `errorIterator`.
pub data Iterator (S : Type 0) : Type 0 where
  over : S → Iterator S
  error_iterator : Iterator S

unfoldable pub open_list : {S : Type 0} → Option S → Iterator S
open_list none = error_iterator
open_list (some s) = over s

unfoldable pub next_digest : {S : Type 0} → (S → Next S) → Iterator S → Next (Iterator S)
next_digest step error_iterator = failed
next_digest step (over s) = elim (step s) [
  | digest d t ↦ digest d (over t)
  | ended ↦ ended
  | failed ↦ failed
]

-- The value of a variable: of the entries `name=value` of an environment the last one counts.
unfoldable pub value_in : Bytes → List Bytes → Option Bytes
value_in name [] = none
value_in name (entry ∷ env) = elim (value_in name env) [
  | some v ↦ some v
  | none ↦ cut_prefix (name ++ codes "=") entry
]

abbrev or_else : {A : Type 0} → Option A → Option A → Option A
or_else none b = b
or_else (some a) b = some a

value_in-last :
    (name entry : Bytes) (env : List Bytes)
    → value_in name (env ++ entry ∷ [])
      ≡ or_else (cut_prefix (name ++ codes "=") entry) (value_in name env)
unfolding value_in
value_in-last name entry [] = elim (Option-cases (cut_prefix (name ++ codes "=") entry)) [
  | inl e ↦ rw e refl
  | inr (v, e) ↦ rw e refl
]
value_in-last name entry (x ∷ env) =
    rw (value_in-last name entry env) (elim (Option-cases (cut_prefix (name ++ codes "=") entry)) [
      | inl e ↦ rw e refl
      | inr (v, e) ↦ rw e refl
    ])

-- The entry of another variable.
cut_prefix-other :
    (name other value : Bytes)
    → contains_byte 61 name ≡ false
    → contains_byte 61 other ≡ false
    → name ≢ other
    → cut_prefix (name ++ codes "=") (other ++ (codes "=" ++ value)) ≡ none
unfolding cut_prefix contains_byte
cut_prefix-other [] [] value n o d = absurd (d refl)
cut_prefix-other [] (c ∷ other) value n o d = ground arith
cut_prefix-other (c ∷ name) [] value n o d = ground arith
cut_prefix-other (c ∷ name) (b ∷ other) value n o d =
    ground (
      arith,
      cut_prefix-other name other value,
      λ (e : c ≡ b) (f : name ≡ other). d (rw (e, f) refl),
    )

-- The local store and a store behind ssh with the same settings run the same nix command: the words
-- that a shell on the server reads from the last argument of ssh are the assignment of the store
-- directory, which the local process finds in its environment whatever the program's own holds, the
-- executable and the arguments. No other variable of the local process is changed.
pub new_local_command-new_ssh_command :
    (nix : Nix) (hostname port : Bytes → Bytes) (l : Local) (s : Ssh) (environ args : List Bytes)
    → l.directory ≡ s.directory
    → l.executable ≡ s.executable
    → let local = new_local_command nix l environ args in
      (dir text : Bytes) × (value_in (codes "NIX_STORE_DIR") local.env ≡ some dir)
      × ((new_ssh_command nix hostname port s environ args).args
          ≡ codes "--" ∷ ssh_destination hostname port s ∷ text ∷ [])
      × (words text ≡ some ((codes "NIX_STORE_DIR=" ++ dir) ∷ local.path ∷ local.args))
      × ((name : Bytes)
          → contains_byte 61 name ≡ false
          → name ≢ codes "NIX_STORE_DIR"
          → value_in name local.env ≡ value_in name environ)
unfolding new_local_command new_ssh_command local_exe exe contains_byte
new_local_command-new_ssh_command nix hostname port l s environ args d x =
    let dir = local_dir nix l in
    let variable : Bytes = codes "NIX_STORE_DIR" in
    (
      dir,
      command_arg dir (local_exe l) args,
      value_in-last variable (codes "NIX_STORE_DIR=" ++ dir) environ
          ∙ ap (λ o. or_else o (value_in variable environ))
              (cut_prefix-append (codes "NIX_STORE_DIR=") dir),
      rw (d, x) refl,
      words-command_arg dir (local_exe l) args,
      λ name plain other.
          value_in-last name (codes "NIX_STORE_DIR=" ++ dir) environ
          ∙ ap (λ o. or_else o (value_in name environ))
              (cut_prefix-other name variable dir plain refl other),
    )

-- An iterator over what was opened gives what that gives, and no other gives anything.
drain-next_digest :
    {S : Type 0} (step : S → Next S) (n : ℕ) (s : S)
    → (drain (next_digest step) n (open_list (some s)) ≡ drain step n s)
      × (drain (next_digest step) n (open_list none) ≡ none)
unfolding drain next_digest open_list
drain-next_digest step ℕ.zero s = (refl, refl)
drain-next_digest step (suc n) s = (
  elim (Next-cases (step s)) [
    | inl e ↦ rw (e, drain) refl
    | inr (inl e) ↦ rw (e, drain) refl
    | inr (inr (d, t, e)) ↦ rw (e, drain, (drain-next_digest step n t).0) refl
  ],
  refl,
)
