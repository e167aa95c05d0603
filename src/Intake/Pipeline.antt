-- ===== src/Intake/Pipeline.antt =====
-- From the arguments of `send --finish` to the store paths that an upload takes in.
use nixcached.Prelude.{
  ◌≡◌, refl, ap, true, false, inl, inr, List, [], ◌∷◌, ◌++◌, Option, none, append-nil, Option-cases,
  All, concat, Bytes,
}
use nixcached.Nix.{Nix}
use nixcached.Send.{run_send, outgoing}
use nixcached.Scan.{ScanResult, scan_all}
use nixcached.Scan.Lines.{fits}
use nixcached.Scan.Chunks.{Delivers}
use nixcached.Scan.Sender.{IsPlain, scan_all-run_send}
use nixcached.Intake.{take_in, scan_loop, run_intake}

take_in-nil : (nix : Nix) (dir : Bytes) → take_in nix dir [] ≡ none
unfolding take_in
take_in-nil nix dir = refl

scan_loop-append :
    (nix : Nix) (dir : Bytes) (xs ys : List Bytes)
    → scan_loop nix dir (xs ++ ys) ≡ scan_loop nix dir xs ++ scan_loop nix dir ys
unfolding scan_loop
scan_loop-append nix dir [] ys = refl
scan_loop-append nix dir (x ∷ xs) ys = elim (Option-cases (take_in nix dir x)) [
  | inl e ↦ rw (e, scan_loop) (scan_loop-append nix dir xs ys)
  | inr (p, e) ↦ rw (e, scan_loop) (ap (λ l. p ∷ l) (scan_loop-append nix dir xs ys))
]

-- The empty text of the end mark is skipped.
scan_loop-Delivers :
    (nix : Nix) (dir : Bytes) (r : ScanResult) (ps : List Bytes)
    → Delivers r ps
    → run_intake nix dir r ≡ (scan_loop nix dir ps, false)
unfolding run_intake scan_loop
scan_loop-Delivers nix dir r ps (inl e, t) = rw (e, t) refl
scan_loop-Delivers nix dir r ps (inr e, t) =
    rw (e, t, scan_loop-append nix dir ps ([] ∷ []), take_in-nil nix dir, scan_loop, append-nil)
      refl

-- The paths that `send --finish` writes, if they are plain and no write fails, are taken in by an
-- upload exactly as if it had been given them one by one, and without an error of the scanner. This
-- holds however the pipe cuts the bytes into reads, and whatever comes behind the end mark, if it
-- has no overlong line.
pub run_intake-run_send :
    {E : Type 0} (nix : Nix) (dir : Bytes) (write : List Bytes → Bytes → Option E)
    → ((w : List Bytes) (b : Bytes) → write w b ≡ none)
    → (ps chunks : List Bytes) (later : Bytes) → All IsPlain ps
    → fits 0 later ≡ true
    → concat chunks ≡ concat (run_send none write none (outgoing true ps)).written ++ later
    → run_intake nix dir (scan_all chunks) ≡ (scan_loop nix dir ps, false)
run_intake-run_send nix dir write fine ps chunks later plain f e =
    scan_loop-Delivers nix dir (scan_all chunks) ps
      (scan_all-run_send write fine ps chunks later plain f e)
