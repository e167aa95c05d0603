-- ===== src/Serve/Run.antt =====
-- `runServe` (serve.go): which store it serves, and what it opens and closes again on the way. The
-- libraries that it calls are arguments; logging and the options of the HTTP server are left out.
use nixcached.Prelude.{
  ℕ, Bool, true, false, ◌&&◌, not, List, [], ◌∷◌, ◌++◌, Option, none, some, ◌==◌, if◌then◌else◌,
  is_empty, Bytes, codes, same, has_prefix,
}
use nixcached.Download.{Ssh}

-- `url.URL`, as far as it is used.
pub record SshUrl : Type 0 where
  pub host : Bytes
  pub username : Bytes
  pub path : Bytes

-- The store; that of a bucket is its name.
pub data ServedStore : Type 0 where
  local_store : Bytes → ServedStore
  ssh_store : Ssh → ServedStore
  bucket_store : Bytes → ServedStore

pub data RunError (E : Type 0) : Type 0 where
  no_temp_dir : E → RunError E
  bad_directory : E → RunError E
  bad_url : E → RunError E
  no_opener : E → RunError E
  no_bucket : E → RunError E
  no_listeners : E → RunError E
  wrong_listeners : ℕ → RunError E
  server_failed : E → RunError E

-- A value or an error.
pub data Result (E A : Type 0) : Type 0 where
  err : E → Result E A
  ok : A → Result E A

-- What it uses of its libraries, for errors of type `E`.
pub record RunWorld (E : Type 0) : Type 0 where
  pub mkdir_temp : Option E
  pub clean_store_directory : Bytes → Result E Bytes
  pub parse_url : Bytes → Result E SshUrl
  -- `os.Getenv("SSH")`
  pub ssh_variable : Bytes
  pub new_bucket_opener : Option E
  pub open_bucket : Bytes → Option E
  -- the number of sockets that systemd passes in
  pub listeners : Result E ℕ
  pub serve : ServedStore → Option E
  -- whether a discovery has been started when the server ends
  pub discovers : ServedStore → Bool

-- What is made or opened, and given back again.
pub data Resource : Type 0 where
  temp_dir : Resource
  cache_pool : Resource
  bucket : Resource

pub data Effect : Type 0 where
  opened : Resource → Effect
  closed : Resource → Effect
  -- `activation.Listeners` opens so many sockets that systemd has passed in
  inherited : ℕ → Effect
  -- the server takes a socket, and closes it when it ends
  handed_over : Effect
  served : ServedStore → Effect
  -- a discovery that runs is cancelled and waited for
  discovery_ended : ServedStore → Effect

module _ {E : Type 0} (w : RunWorld E) where
  unfoldable pub ssh_directory : SshUrl → Result E Bytes
  ssh_directory u =
      let cleaned = w.clean_store_directory u.path in
      if not (is_empty u.path) && not (same u.path (codes "/")) then cleaned else ok []

  unfoldable pub open_ssh : Bytes → Result (RunError E) ServedStore
  open_ssh src = elim (w.parse_url src) [
    | err e ↦ err (bad_url e)
    | ok u ↦ elim (ssh_directory u) [
      | err e ↦ err (bad_directory e)
      | ok dir ↦ ok (
          ssh_store (record {
            host = u.host;
            username = u.username;
            directory = dir;
            ssh_executable = w.ssh_variable;
            executable = [];
          }))
    ]
  ]

  unfoldable pub open_store : Bytes → Result (RunError E) ServedStore
  open_store src =
      let local : Result (RunError E) ServedStore = elim (w.clean_store_directory src) [
        | err e ↦ err (bad_directory e)
        | ok dir ↦ ok (local_store dir)
      ] in
      let remote : Result (RunError E) ServedStore = elim w.new_bucket_opener [
        | some e ↦ err (no_opener e)
        | none ↦ elim (w.open_bucket src) [
          | some e ↦ err (no_bucket e)
          | none ↦ ok (bucket_store src)
        ]
      ] in
      if has_prefix (codes "/") src
      then local
      else if has_prefix (codes "ssh://") src
      then open_ssh src
      else remote

  -- The server, with the deferred wait for a discovery.
  unfoldable pub serve_store : ServedStore → List Effect × Option (RunError E)
  serve_store store =
      let ended : Option (RunError E) = elim (w.serve store) [
        | none ↦ none
        | some e ↦ some (server_failed e)
      ] in
      let waits = if w.discovers store then discovery_ended store ∷ [] else [] in
      (served store ∷ waits, ended)

  unfoldable pub listen : Bool → ServedStore → List Effect × Option (RunError E)
  listen false store = serve_store store
  listen true store = elim w.listeners [
    | err e ↦ ([], some (no_listeners e))
    | ok n ↦
        let run = serve_store store in
        if n == 1
        then (inherited n ∷ handed_over ∷ run.0, run.1)
        else (inherited n ∷ [], some (wrong_listeners n))
  ]

  -- A call between opening and a deferred closing.
  abbrev pub holding :
      Resource → List Effect × Option (RunError E) → List Effect × Option (RunError E)
  holding r (effects, error) = (opened r ∷ (effects ++ closed r ∷ []), error)

  unfoldable pub with_store :
      Bool → Result (RunError E) ServedStore → List Effect × Option (RunError E)
  with_store systemd (err e) = ([], some e)
  with_store systemd (ok (bucket_store src)) = holding bucket (listen systemd (bucket_store src))
  with_store systemd (ok store) = listen systemd store

  unfoldable pub run_serve : Bytes → Bool → List Effect × Option (RunError E)
  run_serve src systemd = elim w.mkdir_temp [
    | some e ↦ ([], some (no_temp_dir e))
    | none ↦ holding temp_dir (holding cache_pool (with_store systemd (open_store src)))
  ]
