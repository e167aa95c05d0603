-- ===== src/Discovery.antt =====
-- `signalDiscovery` (serve.go), the background discovery task that it starts, and the requests for
-- the index page that call it. Each request holds a connection of the cache's pool meanwhile.
-- Between two steps the lock `srv.mu` is free, so a step is what one goroutine does in one go.
pub mod Safety
pub mod Pool
use nixcached.Prelude.{
  ℕ, zero, suc, ◌+◌, ◌≡◌, Bool, true, false, ◌&&◌, ◌||◌, not, ltb, ◌==◌, if◌then◌else◌,
}

-- The guarded fields of `storeServer`: `lastDiscoveryEnd` (0 is the zero time), and whether
-- `cancelDiscovery` and `discoveryDone` are set.
pub record Server : Type 0 where
  pub last_end : ℕ
  pub cancel_set : Bool
  pub done_set : Bool

-- How the critical section ends: at once, by going to wait for a connection, or with a new task.
-- Each carries `hasDiscovered`.
pub data Signal : Type 0 where
  returned : Bool → Signal
  wants_connection : Bool → Signal
  started : Bool → Signal

unfoldable pub has_discovered : Server → Bool
has_discovered srv = not (srv.last_end == 0)

unfoldable pub is_limited : ℕ → ℕ → Server → Bool
unfolding has_discovered
is_limited max_list_frequency now srv =
    srv.cancel_set || (has_discovered srv && ltb now (srv.last_end + max_list_frequency))

-- The critical section, without and with a connection.
unfoldable pub signal : ℕ → ℕ → Bool → Server → Signal × Server
unfolding is_limited
signal max_list_frequency now has_conn srv =
    if is_limited max_list_frequency now srv
    then (returned (has_discovered srv), srv)
    else if not has_conn
    then (wants_connection (has_discovered srv), srv)
    else (started (has_discovered srv), record srv { cancel_set = true; done_set = true })

-- What the task does at its end, under the lock; the end time is the clock just before it.
unfoldable pub finish_discovery : ℕ → Server → Server
finish_discovery end_time srv = record { last_end = end_time; cancel_set = false; done_set = false }

-- The server, the clock and the pool: its free connections, the requests that hold one and do not
-- wait, those that hold one and wait in `srv.cache.Get`, the running tasks, the tasks that have left
-- the lock for the last time and still hold theirs, and the connections that nobody holds and
-- nobody has put back.
pub record System : Type 0 where
  pub server : Server
  pub clock : ℕ
  pub free : ℕ
  pub serving : ℕ
  pub waiting : ℕ
  pub tasks : ℕ
  pub ending : ℕ
  pub lost : ℕ

-- The second half of `signalDiscovery`, for a waiting request that gets a connection. Where the
-- recursive call returns early, `conn` is dropped without a `Put`.
unfoldable pub resume : ℕ → System → System
unfolding signal
resume max_list_frequency s =
    let (answer, srv) = signal max_list_frequency s.clock true s.server in
    elim answer [
      | started b ↦ record s { server = srv; tasks = s.tasks + 1 }
      | returned b ↦ record s { server = srv; lost = s.lost + 1 }
      | wants_connection b ↦ s
    ]

-- The first half, for a request that serves the index page.
unfoldable pub call : ℕ → System → System
unfolding signal
call max_list_frequency s =
    let (answer, srv) = signal max_list_frequency s.clock false s.server in
    elim answer [
      | wants_connection b ↦ record s { waiting = s.waiting + 1 }
      | returned b ↦ record s { serving = s.serving + 1 }
      | started b ↦ s
    ]

pub data Step (freq : ℕ) (s : System) (t : System) : Type 0 where
  -- a request gets its connection
  enter :
      (f : ℕ) → s.free ≡ suc f → t ≡ record s { free = f; serving = s.serving + 1 } → Step freq s t
  -- a request calls `signalDiscovery`
  ask : (k : ℕ) → s.serving ≡ suc k → t ≡ call freq (record s { serving = k }) → Step freq s t
  -- a waiting request gets a second connection
  obtain :
      (k f : ℕ)
      → s.waiting ≡ suc k
      → s.free ≡ suc f
      → t ≡ resume freq (record s { waiting = k; free = f; serving = s.serving + 1 })
      → Step freq s t
  -- a waiting request is cancelled
  give_up :
      (k : ℕ)
      → s.waiting ≡ suc k
      → t ≡ record s { waiting = k; serving = s.serving + 1 }
      → Step freq s t
  -- a request puts its connection back
  leave :
      (k : ℕ) → s.serving ≡ suc k → t ≡ record s { serving = k; free = suc s.free } → Step freq s t
  -- a task clears the fields
  finish :
      (k : ℕ)
      → s.tasks ≡ suc k
      → t
        ≡ record s { server = finish_discovery s.clock s.server; tasks = k; ending = s.ending + 1 }
      → Step freq s t
  -- its deferred `Put` runs, after the deferred `Unlock`
  put_back :
      (k : ℕ) → s.ending ≡ suc k → t ≡ record s { ending = k; free = suc s.free } → Step freq s t
  -- time passes
  tick : (d : ℕ) → t ≡ record s { clock = s.clock + d } → Step freq s t

pub data Reach (freq : ℕ) (s : System) : System → Type 0 where
  here : Reach freq s s
  next : {t u : System} → Reach freq s t → Step freq t u → Reach freq s u

-- A new server at a time after zero.
unfoldable pub initial : ℕ → System
initial pool_size = record {
  server = record { last_end = 0; cancel_set = false; done_set = false };
  clock = 1;
  free = pool_size;
  serving = 0;
  waiting = 0;
  tasks = 0;
  ending = 0;
  lost = 0;
}
