-- ===== src/Discovery/Safety.antt =====
-- At most one discovery task runs, tasks start no more often than allowed, and connections are
-- accounted for.
use nixcached.Prelude.{ℕ, ◌+◌, ◌≤◌, ◌≡◌, true, false, ◌<◌, arith, if◌then◌else◌, ◌⊎◌}
use nixcached.Discovery.{
  Server, System, call, resume, finish_discovery, Step, enter, ask, obtain, give_up, leave, finish,
  put_back, tick, Reach, here, next, initial,
}

-- How many tasks the fields stand for.
abbrev pub running : Server → ℕ
running srv = if srv.cancel_set then 1 else 0

pub record IsSound (size : ℕ) (s : System) : Type 0 where
  pub one_task : s.tasks ≡ running s.server
  pub fields_agree : s.server.done_set ≡ s.server.cancel_set
  pub accounted : s.free + s.serving + s.waiting + s.tasks + s.ending + s.lost ≡ size
  pub ended_before : s.server.last_end ≤ s.clock

call-IsSound :
    (freq size : ℕ) (s : System)
    → s.tasks ≡ running s.server
    → s.server.done_set ≡ s.server.cancel_set
    → s.free + s.serving + s.waiting + s.tasks + s.ending + s.lost + 1 ≡ size
    → s.server.last_end ≤ s.clock
    → IsSound size (call freq s)
unfolding call
call-IsSound freq size s a b c d = ground arith

resume-IsSound :
    (freq size : ℕ) (s : System)
    → s.tasks ≡ running s.server
    → s.server.done_set ≡ s.server.cancel_set
    → s.free + s.serving + s.waiting + s.tasks + s.ending + s.lost + 1 ≡ size
    → s.server.last_end ≤ s.clock
    → IsSound size (resume freq s)
unfolding resume
resume-IsSound freq size s a b c d = ground arith

Step-IsSound : {freq size : ℕ} {s t : System} → Step freq s t → IsSound size s → IsSound size t
unfolding finish_discovery
Step-IsSound (enter f a e) i = ground arith
Step-IsSound {freq} {size} {s} (ask k a e) i = rw e (
    call-IsSound freq size (record s { serving = k }) i.one_task i.fields_agree (ground arith)
      i.ended_before)
Step-IsSound {freq} {size} {s} (obtain k f a b e) i = rw e (
    resume-IsSound freq size (record s { waiting = k; free = f; serving = s.serving + 1 })
      i.one_task i.fields_agree (ground arith) i.ended_before)
Step-IsSound (give_up k a e) i = ground arith
Step-IsSound (leave k a e) i = ground arith
Step-IsSound (finish k a e) i = ground arith
Step-IsSound (put_back k a e) i = ground arith
Step-IsSound (tick d e) i = ground arith

initial-IsSound : (size : ℕ) → IsSound size (initial size)
unfolding initial
initial-IsSound size = ground arith

Reach-IsSound : {freq size : ℕ} {s t : System} → Reach freq s t → IsSound size s → IsSound size t
Reach-IsSound here i = i
Reach-IsSound (next r x) i = Step-IsSound x (Reach-IsSound r i)

running-≤-1 : (srv : Server) → running srv ≤ 1
running-≤-1 srv = ground arith

-- Whatever requests and tasks have done since the server started, at most one discovery task runs,
-- `discoveryDone` is set exactly when `cancelDiscovery` is, and every connection of the pool is free,
-- held by a request that waits for a second one or by another, held by the task or by one that has
-- just ended, or lost.
pub Reach-one_task :
    (freq size : ℕ) (t : System)
    → Reach freq (initial size) t
    → (t.tasks ≤ 1)
      × ((t.server.done_set ≡ t.server.cancel_set)
          × (t.free + t.serving + t.waiting + t.tasks + t.ending + t.lost ≡ size))
Reach-one_task freq size t r =
    let i : IsSound size t = Reach-IsSound r (initial-IsSound size) in
    let bound : running t.server ≤ 1 = running-≤-1 t.server in
    (omega arith, (i.fields_agree, i.accounted))

starts_at :
    (freq size : ℕ) (s t : System)
    → Step freq s t
    → s.tasks < t.tasks
    → IsSound size s
    → (s.tasks ≡ 0)
      × (s.server.cancel_set ≡ false)
      × (s.server.done_set ≡ false)
      × ((s.server.last_end ≡ 0) ⊎ (s.server.last_end + freq ≤ s.clock))
      × (t.tasks ≡ 1)
      × (t.server.cancel_set ≡ true)
      × (t.server.done_set ≡ true)
unfolding resume call
starts_at freq size s t (enter f a e) lt i = absurd (ground arith)
starts_at freq size s t (ask k a e) lt i = absurd (ground arith)
starts_at freq size s t (obtain k f a b e) lt i = ground arith
starts_at freq size s t (give_up k a e) lt i = absurd (ground arith)
starts_at freq size s t (leave k a e) lt i = absurd (ground arith)
starts_at freq size s t (finish k a e) lt i = absurd (ground arith)
starts_at freq size s t (put_back k a e) lt i = absurd (ground arith)
starts_at freq size s t (tick d e) lt i = absurd (ground arith)

-- Whatever requests and tasks have done since the server started, a step after which there is one
-- discovery task more is taken when none runs, no task is to be cancelled or waited for, and no
-- discovery has ended before or the list frequency has passed since the last one ended. From then on
-- exactly one runs, and it can be cancelled and waited for.
pub Step-starts :
    (freq size : ℕ) (s t : System)
    → Reach freq (initial size) s
    → Step freq s t
    → s.tasks < t.tasks
    → (s.tasks ≡ 0)
      × (s.server.cancel_set ≡ false)
      × (s.server.done_set ≡ false)
      × ((s.server.last_end ≡ 0) ⊎ (s.server.last_end + freq ≤ s.clock))
      × (t.tasks ≡ 1)
      × (t.server.cancel_set ≡ true)
      × (t.server.done_set ≡ true)
Step-starts freq size s t r st lt =
    starts_at freq size s t st lt (Reach-IsSound r (initial-IsSound size))
