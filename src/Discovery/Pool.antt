-- ===== src/Discovery/Pool.antt =====
-- Connections that `signalDiscovery` drops: how the pool runs dry.
use nixcached.Prelude.{ℕ, zero, suc, ◌+◌, ◌≤◌, ◌<◌, ◌≡◌, refl, sym, true, false, arith}
use nixcached.Discovery.{
  System, call, resume, finish_discovery, enter, ask, obtain, leave, finish, put_back, tick, Reach,
  here, next, initial,
}

-- Nobody holds a connection, and a discovery may start.
abbrev idle : ℕ → ℕ → ℕ → ℕ → System
idle now last free lost = record {
  server = record { last_end = last; cancel_set = false; done_set = false };
  clock = now;
  free = free;
  serving = 0;
  waiting = 0;
  tasks = 0;
  ending = 0;
  lost = lost;
}

call-asks :
    (freq : ℕ) (s : System)
    → s.server.cancel_set ≡ false
    → s.server.last_end + freq ≤ s.clock
    → call freq s ≡ record s { waiting = s.waiting + 1 }
unfolding call
call-asks freq s a b = ground arith

resume-starts :
    (freq : ℕ) (s : System)
    → s.server.cancel_set ≡ false
    → s.server.last_end + freq ≤ s.clock
    → resume freq s ≡ record s {
      server = record s.server { cancel_set = true; done_set = true };
      tasks = s.tasks + 1;
    }
unfolding resume
resume-starts freq s a b = ground arith

resume-loses :
    (freq : ℕ) (s : System)
    → s.server.last_end ≡ s.clock
    → 0 < s.clock
    → 0 < freq
    → resume freq s ≡ record s { lost = s.lost + 1 }
unfolding resume
resume-loses freq s a b c = ground arith

-- Two requests that ask before either gets its second connection, the second of them after the task
-- of the first.
round :
    (freq now last n lost : ℕ)
    → last + freq ≤ now
    → 0 < now
    → 0 < freq
    → Reach freq
        (idle now last (suc (suc (suc n))) lost)
        (idle (now + freq) now (suc (suc n)) (lost + 1))
unfolding finish_discovery
round freq now last n lost old start pos =
    let s0 : System = idle now last (suc (suc (suc n))) lost in
    let s1 : System = record s0 { free = suc (suc n); serving = 1 } in
    let s2 : System = record s1 { free = suc n; serving = 2 } in
    let s3 : System = record s2 { serving = 1; waiting = 1 } in
    let s4 : System = record s3 { serving = 0; waiting = 2 } in
    let s5 : System = record s4 {
      server = record { last_end = last; cancel_set = true; done_set = true };
      free = n;
      serving = 1;
      waiting = 1;
      tasks = 1;
    } in
    let s6 : System = record s5 {
      server = finish_discovery now s5.server;
      tasks = 0;
      ending = 1;
    } in
    let s7 : System = record s6 { ending = 0; free = suc n } in
    let s8 : System = record s7 { waiting = 0; free = n; serving = 2; lost = lost + 1 } in
    let s9 : System = record s8 { serving = 1; free = suc n } in
    let s10 : System = record s9 { serving = 0; free = suc (suc n) } in
    let r1 : Reach freq s0 s1 = next here (enter (suc (suc n)) refl refl) in
    let r2 : Reach freq s0 s2 = next r1 (enter (suc n) refl refl) in
    let r3 : Reach freq s0 s3 =
      next r2 (ask 1 refl (sym (call-asks freq (record s2 { serving = 1 }) refl old))) in
    let r4 : Reach freq s0 s4 =
      next r3 (ask 0 refl (sym (call-asks freq (record s3 { serving = 0 }) refl old))) in
    let r5 : Reach freq s0 s5 = next r4 (
      obtain 1 n refl refl
        (sym (resume-starts freq (record s4 { waiting = 1; free = n; serving = 1 }) refl old))) in
    let r6 : Reach freq s0 s6 = next r5 (finish 0 refl refl) in
    let r7 : Reach freq s0 s7 = next r6 (put_back 0 refl refl) in
    let r8 : Reach freq s0 s8 = next r7 (
      obtain 0 n refl refl (
        sym
          (resume-loses freq (record s7 { waiting = 0; free = n; serving = 2 }) refl start pos))) in
    let r9 : Reach freq s0 s9 = next r8 (leave 1 refl refl) in
    let r10 : Reach freq s0 s10 = next r9 (leave 0 refl refl) in next r10 (tick freq refl)

Reach-trans : {freq : ℕ} {s t u : System} → Reach freq s t → Reach freq t u → Reach freq s u
Reach-trans r here = r
Reach-trans r (next r' x) = next (Reach-trans r r') x

rounds :
    (freq m now last lost total : ℕ)
    → last + freq ≤ now
    → 0 < now
    → 0 < freq
    → lost + m ≡ total
    → (now' : ℕ) × ((last' : ℕ) × Reach freq
          (idle now last (suc (suc m)) lost)
          (idle now' last' 2 total))
rounds freq zero now last lost total old start pos e =
    let same_total : lost ≡ total = omega arith in (now, (last, rw same_total here))
rounds freq (suc m) now last lost total old start pos e =
    let (now', rest) =
      rounds freq m (now + freq) now (lost + 1) total (omega arith) (omega arith) pos
        (omega arith) in
    let (last', r) = rest in
    (now', (last', Reach-trans (round freq now last m lost old start pos) r))

-- Each round of two requests that overlap costs the pool a connection that nobody puts back: where
-- the list frequency is not zero, from a new server with a pool of `2 + m` connections a state is
-- reached in which two connections are free and `m` are lost, so that no request and no task holds
-- one.
pub Reach-drained :
    (freq m : ℕ)
    → 0 < freq
    → (t : System) × (Reach freq (initial (suc (suc m))) t × ((t.free ≡ 2) × (t.lost ≡ m)))
unfolding initial
Reach-drained freq m pos =
    let (now', rest) =
      rounds freq m (1 + freq) 0 0 m (omega arith) (omega arith) pos (omega arith) in
    let (last', r) = rest in
    (idle now' last' 2 m, (Reach-trans (next here (tick freq refl)) r, (refl, refl)))
