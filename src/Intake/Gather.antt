-- ===== src/Intake/Gather.antt =====
-- The result of `gatherStorePathSet` after a query for all paths has failed.
use nixcached.Prelude.{
  ◌≡◌, Bool, true, false, not, inl, inr, List, [], ◌∷◌, ◌++◌, Option, none, arith, if_rule,
  Option-cases, is_empty,
}
use nixcached.Nix.{StorePath}
use nixcached.Upload.{NarInfo}
use nixcached.Intake.{is_visited, add_new, gather_each, gather_store_path_set}

-- Infos with hashes, whose paths differ from each other and from those visited before.
abbrev pub IsFresh : List StorePath → List NarInfo → Type 0
IsFresh visited [] = Unit
IsFresh visited (info ∷ infos) =
    (is_visited info.store_path visited ≡ false)
    × (is_empty info.nar_hash ≡ false)
    × IsFresh (info.store_path ∷ visited) infos

-- A list of paths holds another one.
abbrev Covers : List StorePath → List StorePath → Type 0
Covers more fewer = (p : StorePath) → is_visited p fewer ≡ true → is_visited p more ≡ true

Covers-cons :
    (q : StorePath) (more fewer : List StorePath)
    → Covers more fewer
    → Covers (q ∷ more) (q ∷ fewer)
unfolding is_visited
Covers-cons q more fewer c p h = ground (arith, c p)

not_visited : (a b : Bool) → (a ≡ true → b ≡ true) → b ≡ false → a ≡ false
not_visited a b f h = ground arith

-- Fewer visited paths are less to avoid.
IsFresh-Covers :
    (more fewer : List StorePath) (infos : List NarInfo)
    → Covers more fewer
    → IsFresh more infos
    → IsFresh fewer infos
IsFresh-Covers more fewer [] c f = tt
IsFresh-Covers more fewer (info ∷ infos) c (v, n, f) = (
  not_visited (is_visited info.store_path fewer) (is_visited info.store_path more)
      (c info.store_path) v,
  n,
  IsFresh-Covers (info.store_path ∷ more) (info.store_path ∷ fewer) infos
      (Covers-cons info.store_path more fewer c) f,
)

Covers-tail : (q : StorePath) (visited : List StorePath) → Covers (q ∷ visited) visited
unfolding is_visited
Covers-tail q visited p h = ground arith

Covers-step :
    (q : StorePath) (more visited : List StorePath)
    → Covers more (q ∷ visited)
    → Covers more visited
unfolding is_visited
Covers-step q more visited c p h = c p (ground (arith))

-- What a query adds, with whatever follows that avoids the paths visited then.
add_new-IsFresh :
    (infos : List NarInfo) (visited : List StorePath)
    → ((rest : List NarInfo)
        → IsFresh (add_new infos visited).1 rest
        → IsFresh visited ((add_new infos visited).0 ++ rest))
      × Covers (add_new infos visited).1 visited
unfolding add_new
add_new-IsFresh [] visited = (λ rest f. f, λ p h. h)
add_new-IsFresh (info ∷ infos) visited =
    let (fresh, covers) = add_new-IsFresh infos (info.store_path ∷ visited) in
    let P : List NarInfo × List StorePath → Type 0 = λ r.
      ((rest : List NarInfo) → IsFresh r.1 rest → IsFresh visited (r.0 ++ rest))
      × Covers r.1 visited in
    if_rule P (is_visited info.store_path visited) _ _ (λ v. add_new-IsFresh infos visited)
      (λ v.
        if_rule P (not (is_empty info.nar_hash)) _ _
          (λ n. (
            λ rest f. (v, not_true (is_empty info.nar_hash) n, fresh rest f),
            Covers-step info.store_path _ visited covers,
          ))
          (λ n. (
            λ rest f.
                IsFresh-Covers (info.store_path ∷ visited) visited _
                  (Covers-tail info.store_path visited) (fresh rest f),
            Covers-step info.store_path _ visited covers,
          )))
  where
    not_true : (b : Bool) → not b ≡ true → b ≡ false
    not_true b h = ground arith

gather_each-IsFresh :
    (query : List StorePath → Option (List NarInfo)) (paths visited : List StorePath)
    → IsFresh visited (gather_each query paths visited)
unfolding gather_each
gather_each-IsFresh query [] visited = tt
gather_each-IsFresh query (p ∷ paths) visited =
    if_rule (IsFresh visited) (is_visited p visited) _ _
      (λ v. gather_each-IsFresh query paths visited)
      (λ v. elim (Option-cases (query (p ∷ []))) [
        | inl e ↦ rw (e, gather_each) (gather_each-IsFresh query paths visited)
        | inr (infos, e) ↦
            rw (e, gather_each)
              ((add_new-IsFresh infos visited).0 (gather_each query paths (add_new infos visited).1)
                (gather_each-IsFresh query paths (add_new infos visited).1))
      ])

-- If the query for all paths fails, every info that is gathered has a NAR hash, and no two have the
-- same store path.
pub gather_store_path_set-IsFresh :
    (query : List StorePath → Option (List NarInfo)) (paths : List StorePath)
    → query paths ≡ none
    → IsFresh [] (gather_store_path_set query paths)
unfolding gather_store_path_set
gather_store_path_set-IsFresh query paths e =
    rw (e, gather_store_path_set) (gather_each-IsFresh query paths [])
