-- ===== src/Intake/Reached.antt =====
-- From the sender to the uploads: the infos for which `processUploads` starts a job.
use nixcached.Prelude.{
  ◌≡◌, refl, sym, ap, ◌∙◌, ◌||◌, arith, Bool, true, false, List, [], ◌∷◌, ◌++◌, Option, none, some,
  Option-cases, Bool-cases, inl, inr, concat, All, Bytes, same_refl,
}
use nixcached.Nix.{Nix, StorePath}
use nixcached.Send.{run_send, outgoing}
use nixcached.Scan.{scan_all}
use nixcached.Scan.Lines.{fits}
use nixcached.Scan.Sender.{IsPlain}
use nixcached.Upload.{NarInfo}
use nixcached.Intake.{scan_loop, run_intake, is_visited, gather_store_path_set}
use nixcached.Intake.Handover.{Run, Reach, begin}
use nixcached.Intake.Handover.Control.{is_returned}
use nixcached.Intake.Handover.Progress.{Reach-hands_over}
use nixcached.Intake.Coverage.{
  paths_of, is_visited-append, paths_of-append, Agrees, gather_store_path_set_complete,
}
use nixcached.Intake.Pipeline.{run_intake-run_send}

abbrev pub Query : Type 0
Query = List StorePath → Option (List NarInfo)

-- The infos of all batches, in the order in which `processUploads` comes to them.
unfoldable pub all_infos : Query → List (List StorePath) → List NarInfo
all_infos query [] = []
all_infos query (batch ∷ more) = gather_store_path_set query batch ++ all_infos query more

module _ (valid : StorePath → Bool) (query : Query)
    (agree : (q : StorePath) (infos : List NarInfo)
      → query (q ∷ []) ≡ some infos
      → All (Agrees valid) infos)
    (reports : (qs : List StorePath) (infos : List NarInfo)
      → query qs ≡ some infos
      → (q : StorePath) → is_visited q qs ≡ true
      → is_visited q (paths_of infos) ≡ true) where
  one_visited : (q : StorePath) → is_visited q (q ∷ []) ≡ true
  unfolding is_visited
  one_visited q = rw (same_refl q) refl

  gather-visited :
      (p : StorePath) (infos : List NarInfo) (batch : List StorePath)
      → valid p ≡ true
      → query (p ∷ []) ≡ some infos
      → is_visited p batch ≡ true
      → is_visited p (paths_of (gather_store_path_set query batch)) ≡ true
  unfolding gather_store_path_set
  gather-visited p infos batch v e m = elim (Option-cases (query batch)) [
    | inl n ↦
        gather_store_path_set_complete valid query p agree
          (λ q is h. reports (q ∷ []) is h q (one_visited q)) v batch infos n e m
    | inr (is, s) ↦ rw (s, gather_store_path_set) (reports batch is s p m)
  ]

  all_infos-visited :
      (p : StorePath) (infos : List NarInfo) (bs : List (List StorePath))
      → valid p ≡ true
      → query (p ∷ []) ≡ some infos
      → is_visited p (concat bs) ≡ true
      → is_visited p (paths_of (all_infos query bs)) ≡ true
  unfolding all_infos
  all_infos-visited p infos [] v e m = m
  all_infos-visited p infos (b ∷ bs) v e m =
      let split : (is_visited p b || is_visited p (concat bs)) ≡ true =
        sym (is_visited-append p b (concat bs)) ∙ m in
      let parts = paths_of-append (gather_store_path_set query b) (all_infos query bs) in
      ap (is_visited p) parts
      ∙ is_visited-append p (paths_of (gather_store_path_set query b))
          (paths_of (all_infos query bs))
      ∙ elim (Bool-cases (is_visited p b)) [
        | inl y ↦ let found = gather-visited p infos b v e y in ground (arith, found)
        | inr n ↦
            let rest = all_infos-visited p infos bs v e (rw n at split) in ground (arith, rest)
      ]

  -- Every store path that `send --finish` writes, that an upload's store directory accepts and that
  -- is valid in the local store is among the infos for which `processUploads` has started a job when
  -- `runUpload` returns, however the pipe cuts the bytes, whatever comes behind the end mark (if it has
  -- no overlong line), and however the goroutines interleave, if the context has not ended. No write of
  -- the sender fails, the paths are plain, and the query for the path alone succeeds; a query that
  -- succeeds reports all that it was asked for, and a NAR hash exactly for the valid paths.
  pub sent_path_requested :
      {E : Type 0} (nix : Nix) (dir : Bytes) (write : List Bytes → Bytes → Option E)
      → ((w : List Bytes) (b : Bytes) → write w b ≡ none)
      → (ps chunks : List Bytes) (later : Bytes) → All IsPlain ps
      → fits 0 later ≡ true
      → concat chunks ≡ concat (run_send none write none (outgoing true ps)).written ++ later
      → (s : Run) → Reach nix dir (begin (scan_all chunks).tokens) s
      → is_returned s.caller ≡ true
      → s.is_cancelled ≡ false
      → (p : StorePath) (infos : List NarInfo) → is_visited p (scan_loop nix dir ps) ≡ true
      → valid p ≡ true
      → query (p ∷ []) ≡ some infos
      → is_visited p (paths_of (all_infos query s.handled)) ≡ true
  unfolding run_intake
  sent_path_requested nix dir write fine ps chunks later plain f e s r over lasts p infos m v q =
      let handled : concat s.handled ≡ scan_loop nix dir (scan_all chunks).tokens =
        (((Reach-hands_over nix dir (scan_all chunks).tokens s r).4 over).1 lasts).1 in
      let same_paths : concat s.handled ≡ scan_loop nix dir ps =
        handled
        ∙ ap (λ (r : List StorePath × Bool). r.0)
            (run_intake-run_send nix dir write fine ps chunks later plain f e) in
      all_infos-visited p infos s.handled v q (ap (is_visited p) same_paths ∙ m)
