-- ===== src/BatchInfo.antt =====
-- `BatchNARInfo` (internal/nixstore/nixstore.go), for a store that answers one digest at a time: its
-- goroutines as a step relation. The limit of the group, its context and the mutex are part of the
-- state; a lookup takes effect in the step in which it ends.
pub mod Results
pub mod Progress
use nixcached.Prelude.{
  ℕ, suc, ◌<◌, ◌≡◌, Bool, true, false, List, [], ◌∷◌, ◌++◌, ltb, if◌then◌else◌, is_empty, length,
  Bytes, ◌⊎◌,
}
use nixcached.Upload.{NarInfo}
use nixcached.Serve.{Lookup, hit, missing, lookup_failed}

-- How a request is handled: refused, answered with nothing, given to the store as it is, or looked
-- up digest by digest.
pub data Plan : Type 0 where
  refused : Plan
  nothing : Plan
  at_once : Plan
  one_by_one : Plan

unfoldable pub plan : ℕ → Bool → List Bytes → Plan
plan max_concurrency is_batch_store digests =
    if ltb max_concurrency 1
    then refused
    else if is_empty digests
    then nothing
    else if is_batch_store
    then at_once
    else one_by_one

pub record Batch : Type 0 where
  pub waiting : List Bytes
  pub running : List Bytes
  pub result : List NarInfo
  -- whether the group's context has ended, and whether the group has an error
  pub cancelled : Bool
  pub failed : Bool

abbrev pub one : Lookup → List NarInfo
one (hit info) = info ∷ []
one missing = []
one lookup_failed = []

module _ (nar_info : Bytes → Lookup) where
  pub data Step (limit : ℕ) (s : Batch) (t : Batch) : Type 0 where
    -- `grp.Go`
    start :
        (d : Bytes) (ds : List Bytes)
        → s.waiting ≡ d ∷ ds
        → length s.running < limit
        → t ≡ record s { waiting = ds; running = d ∷ s.running }
        → Step limit s t
    -- the store finds an info, which is appended
    append :
        (xs ys : List Bytes) (d : Bytes) (info : NarInfo)
        → s.running ≡ xs ++ d ∷ ys
        → nar_info d ≡ hit info
        → t ≡ record s { running = xs ++ ys; result = s.result ++ info ∷ [] }
        → Step limit s t
    -- `ErrNotFound`
    skip :
        (xs ys : List Bytes) (d : Bytes)
        → s.running ≡ xs ++ d ∷ ys
        → nar_info d ≡ missing
        → t ≡ record s { running = xs ++ ys }
        → Step limit s t
    -- another error, of the store or because the context has ended
    fail :
        (xs ys : List Bytes) (d : Bytes)
        → s.running ≡ xs ++ d ∷ ys
        → (nar_info d ≡ lookup_failed) ⊎ (s.cancelled ≡ true)
        → t ≡ record s { running = xs ++ ys; cancelled = true; failed = true }
        → Step limit s t
    -- the caller's context ends
    cancel : s.cancelled ≡ false → t ≡ record s { cancelled = true } → Step limit s t

  pub data Reach (limit : ℕ) (s : Batch) : Batch → Type 0 where
    here : Reach limit s s
    next : {t u : Batch} → Reach limit s t → Step limit t u → Reach limit s u

  -- What looking the digests up in turn finds.
  unfoldable pub in_turn : List Bytes → List NarInfo
  in_turn [] = []
  in_turn (d ∷ ds) = one (nar_info d) ++ in_turn ds

unfoldable pub begin : List Bytes → Batch
begin digests = record {
  waiting = digests;
  running = [];
  result = [];
  cancelled = false;
  failed = false;
}
