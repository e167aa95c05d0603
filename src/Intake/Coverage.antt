-- ===== src/Intake/Coverage.antt =====
-- What `gatherStorePathSet` finds after a query for all paths has failed.
use nixcached.Prelude.{
  ◌≡◌, refl, sym, ap, ◌∙◌, Bool, true, false, ◌||◌, not, inl, inr, List, [], ◌∷◌, ◌++◌, Option,
  none, some, map, arith, if_rule, Option-cases, Bool-cases, All, is_empty, same, same_sound,
}
use nixcached.Nix.{StorePath}
use nixcached.Upload.{NarInfo}
use nixcached.Intake.{is_visited, add_new, gather_each, gather_store_path_set}

-- The store paths of infos.
abbrev pub paths_of : List NarInfo → List StorePath
paths_of infos = map (λ (i : NarInfo). i.store_path) infos

pub is_visited-append :
    (p : StorePath) (xs ys : List StorePath)
    → is_visited p (xs ++ ys) ≡ (is_visited p xs || is_visited p ys)
unfolding is_visited
is_visited-append p [] ys = refl
is_visited-append p (x ∷ xs) ys = ground (arith, is_visited-append p xs ys)

pub paths_of-append : (xs ys : List NarInfo) → paths_of (xs ++ ys) ≡ paths_of xs ++ paths_of ys
paths_of-append [] ys = refl
paths_of-append (x ∷ xs) ys = ap (λ l. x.store_path ∷ l) (paths_of-append xs ys)

visited-cons :
    (p q : StorePath) (visited : List StorePath)
    → is_visited p visited ≡ true
    → is_visited p (q ∷ visited) ≡ true
unfolding is_visited
visited-cons p q visited h = ground arith

reorder : (a b c : Bool) → ((a || b) || c) ≡ true → (b || (a || c)) ≡ true
reorder a b c h = ground arith

drop_first : (a b c : Bool) → a ≡ false → ((a || b) || c) ≡ true → (b || c) ≡ true
drop_first a b c e h = ground arith

combine :
    (more a b c : Bool)
    → (more ≡ true → (a || b) ≡ true)
    → (more || c) ≡ true
    → (a || (b || c)) ≡ true
combine more a b c f h = ground arith

invalid : (t : Bool) → not t ≡ true → t ≡ false
invalid t h = ground arith

holds : (t : Bool) → not t ≡ false → t ≡ true
holds t h = ground arith

module _ (valid : StorePath → Bool) where
  -- An info has a hash exactly if its store object is valid.
  abbrev pub Agrees : NarInfo → Type 0
  Agrees info = is_empty info.nar_hash ≡ not (valid info.store_path)

  -- What one query has accounted for: nothing is forgotten, what it reports is visited, and valid
  -- paths that are visited anew are kept.
  add_new-visited :
      (p : StorePath) (infos : List NarInfo) (visited : List StorePath)
      → is_visited p visited ≡ true
      → is_visited p (add_new infos visited).1 ≡ true
  unfolding add_new
  add_new-visited p [] visited h = h
  add_new-visited p (info ∷ infos) visited h =
      let P : List NarInfo × List StorePath → Type 0 = λ r. is_visited p r.1 ≡ true in
      let deeper : is_visited p (add_new infos (info.store_path ∷ visited)).1 ≡ true =
        add_new-visited p infos (info.store_path ∷ visited)
          (visited-cons p info.store_path visited h) in
      if_rule P (is_visited info.store_path visited) _ _ (λ v. add_new-visited p infos visited h)
        (λ v. if_rule P (not (is_empty info.nar_hash)) _ _ (λ n. deeper) (λ n. deeper))

  add_new-reported :
      (p : StorePath) (infos : List NarInfo) (visited : List StorePath)
      → is_visited p (paths_of infos) ≡ true
      → is_visited p (add_new infos visited).1 ≡ true
  unfolding add_new is_visited
  add_new-reported p [] visited h = cc h
  add_new-reported p (info ∷ infos) visited h =
      let P : List NarInfo × List StorePath → Type 0 = λ r. is_visited p r.1 ≡ true in
      elim (Bool-cases (same p info.store_path)) [
        | inr n ↦
            let h' : is_visited p (paths_of infos) ≡ true = rw n at h in
            if_rule P (is_visited info.store_path visited) _ _
              (λ v. add_new-reported p infos visited h')
              (λ v.
                if_rule P (not (is_empty info.nar_hash)) _ _
                  (λ m. add_new-reported p infos (info.store_path ∷ visited) h')
                  (λ m. add_new-reported p infos (info.store_path ∷ visited) h'))
        | inl y ↦
            let e : p ≡ info.store_path = same_sound p info.store_path y in
            let seen : is_visited p (add_new infos (info.store_path ∷ visited)).1 ≡ true =
              add_new-visited p infos (info.store_path ∷ visited) (rw y refl) in
            if_rule P (is_visited info.store_path visited) _ _
              (λ v. add_new-visited p infos visited (rw e v))
              (λ v. if_rule P (not (is_empty info.nar_hash)) _ _ (λ m. seen) (λ m. seen))
      ]

  -- A valid path that is visited was visited before, or is kept.
  abbrev IsKept : StorePath → List StorePath → List NarInfo × List StorePath → Type 0
  IsKept p visited r =
      is_visited p r.1 ≡ true → (is_visited p visited || is_visited p (paths_of r.0)) ≡ true

  other_path :
      (p : StorePath) (info : NarInfo)
      → Agrees info
      → valid p ≡ true
      → is_empty info.nar_hash ≡ true
      → same p info.store_path ≡ false
  other_path p info b g n = elim (Bool-cases (same p info.store_path)) [
    | inr m ↦ m
    | inl m ↦
        cc (
          g,
          ap valid (same_sound p info.store_path m),
          invalid (valid info.store_path) (sym b ∙ n),
        )
  ]

  IsKept-cons :
      (p : StorePath) (info : NarInfo) (infos : List NarInfo) (visited : List StorePath)
      → Agrees info
      → valid p ≡ true
      → IsKept p visited (add_new infos visited)
      → IsKept p (info.store_path ∷ visited) (add_new infos (info.store_path ∷ visited))
      → IsKept p visited (add_new (info ∷ infos) visited)
  unfolding add_new is_visited
  IsKept-cons p info infos visited b g skip deeper =
      if_rule (IsKept p visited) (is_visited info.store_path visited) _ _ (λ v. skip)
        (λ v.
          if_rule (IsKept p visited) (not (is_empty info.nar_hash)) _ _
            (λ n k. reorder (same p info.store_path) (is_visited p visited) _ (deeper k))
            (λ n k.
              drop_first (same p info.store_path) (is_visited p visited) _
                (other_path p info b g (holds (is_empty info.nar_hash) n)) (deeper k)))

  add_new-IsKept :
      (p : StorePath) (infos : List NarInfo) (visited : List StorePath)
      → All Agrees infos
      → valid p ≡ true
      → IsKept p visited (add_new infos visited)
  unfolding add_new is_visited
  add_new-IsKept p [] visited a g = λ h. rw h refl
  add_new-IsKept p (info ∷ infos) visited (b, a) g =
      IsKept-cons p info infos visited b g (add_new-IsKept p infos visited a g)
        (add_new-IsKept p infos (info.store_path ∷ visited) a g)

  module _ (query : List StorePath → Option (List NarInfo)) (p : StorePath)
      (agree : (q : StorePath) (infos : List NarInfo)
        → query (q ∷ []) ≡ some infos
        → All Agrees infos)
      (self : (q : StorePath) (infos : List NarInfo)
        → query (q ∷ []) ≡ some infos
        → is_visited q (paths_of infos) ≡ true)
      (g : valid p ≡ true) where
    -- The path was visited before or is gathered.
    abbrev IsGathered : List StorePath → List NarInfo → Type 0
    IsGathered visited r = (is_visited p visited || is_visited p (paths_of r)) ≡ true

    -- What a query has accounted for stays so with whatever is gathered afterwards.
    IsGathered-append :
        (infos rest : List NarInfo) (visited : List StorePath)
        → All Agrees infos
        → IsGathered (add_new infos visited).1 rest
        → IsGathered visited ((add_new infos visited).0 ++ rest)
    IsGathered-append infos rest visited a h =
        rw
          (
            paths_of-append (add_new infos visited).0 rest,
            is_visited-append p (paths_of (add_new infos visited).0),
          )
          (combine (is_visited p (add_new infos visited).1) (is_visited p visited) _ _
            (add_new-IsKept p infos visited a g) h)

    gather_each-IsGathered :
        (infos : List NarInfo) (paths visited : List StorePath)
        → query (p ∷ []) ≡ some infos
        → is_visited p paths ≡ true
        → IsGathered visited (gather_each query paths visited)
    unfolding gather_each is_visited
    gather_each-IsGathered infos [] visited e m = cc m
    gather_each-IsGathered infos (x ∷ paths) visited e m = elim (Bool-cases (same p x)) [
      | inr n ↦
          let m' : is_visited p paths ≡ true = rw n at m in
          if_rule (IsGathered visited) (is_visited x visited) _ _
            (λ v. gather_each-IsGathered infos paths visited e m')
            (λ v. elim (Option-cases (query (x ∷ []))) [
              | inl f ↦ rw (f, gather_each) (gather_each-IsGathered infos paths visited e m')
              | inr (is, f) ↦
                  rw (f, gather_each)
                    (IsGathered-append is _ visited (agree x is f)
                      (gather_each-IsGathered infos paths (add_new is visited).1 e m'))
            ])
      | inl y ↦
          let x-eq : x ≡ p = sym (same_sound p x y) in
          if_rule (IsGathered visited) (is_visited x visited) _ _ (λ v. rw (rw x-eq at v) refl)
            (λ v.
              rw (ap (λ z. query (z ∷ [])) x-eq ∙ e, gather_each)
                (IsGathered-append infos _ visited (agree p infos e)
                  (rw (add_new-reported p infos visited (self p infos e)) refl)))
    ]

    -- If the query for all paths fails, the result has every requested store path that is valid and
    -- whose own query succeeds, even where another query had reported it before. It is assumed that
    -- a query reports its own path, and a NAR hash exactly for the valid paths.
    pub gather_store_path_set_complete :
        (paths : List StorePath) (infos : List NarInfo)
        → query paths ≡ none
        → query (p ∷ []) ≡ some infos
        → is_visited p paths ≡ true
        → is_visited p (paths_of (gather_store_path_set query paths)) ≡ true
    unfolding gather_store_path_set is_visited
    gather_store_path_set_complete paths infos all_fail e m =
        rw (all_fail, gather_store_path_set) (gather_each-IsGathered infos paths [] e m)
