-- ===== src/UiCache/OwnRows.antt =====
-- The rows of one digest among those of the recursion in uicache/index.sql.
use nixcached.Prelude.{
  ◌≡◌, ◌||◌, refl, ap, ◌∙◌, true, false, arith, List, [], ◌∷◌, Bool-cases, inl, inr, if_rule, Bytes,
  same, keep,
}
use nixcached.UiCache.Closure.{Requisite, is_in, fresh, push_rows}
use nixcached.UiCache.Turns.{same_row, same_row_sound, same_row_refl, Within}

-- The rows that carry a digest.
abbrev pub own : Bytes → List Requisite → List Requisite
own d ps = keep (λ (p : Requisite). same p.0 d) ps

own-cons :
    (d : Bytes) (p : Requisite) (ps : List Requisite)
    → same p.0 d ≡ true
    → own d (p ∷ ps) ≡ p ∷ own d ps
own-cons d p ps e = rw e refl

own-drop :
    (d : Bytes) (p : Requisite) (ps : List Requisite)
    → same p.0 d ≡ false
    → own d (p ∷ ps) ≡ own d ps
own-drop d p ps e = rw e refl

own-is_in :
    (d : Bytes) (p : Requisite) (ps : List Requisite)
    → same p.0 d ≡ true
    → is_in p (own d ps) ≡ is_in p ps
unfolding is_in
own-is_in d p [] h = refl
own-is_in d p (q ∷ ps) h = elim (Bool-cases (same q.0 d)) [
  | inl e ↦ rw e (ap (λ b. same_row p q || b) (own-is_in d p ps h))
  | inr e ↦ elim (Bool-cases (same_row p q)) [
    | inl f ↦ absurd (cc (h, e, same_row_sound p q f))
    | inr f ↦ rw (e, f) (own-is_in d p ps h)
  ]
]

pub own-fresh :
    (d : Bytes) (seen ps : List Requisite) → own d (fresh seen ps) ≡ fresh (own d seen) (own d ps)
unfolding fresh
own-fresh d seen [] = refl
own-fresh d seen (p ∷ ps) = elim (Bool-cases (same p.0 d)) [
  | inl e ↦ elim (Bool-cases (is_in p seen)) [
    | inl f ↦ rw (f, e, own-is_in d p seen e, f) (own-fresh d seen ps)
    | inr f ↦
        rw (f, e, own-is_in d p seen e, f)
          (ap (λ ps. p ∷ ps)
            (own-fresh d (p ∷ seen) ps ∙ ap (λ zs. fresh zs (own d ps)) (own-cons d p seen e)))
  ]
  | inr e ↦ elim (Bool-cases (is_in p seen)) [
    | inl f ↦ rw (f, e) (own-fresh d seen ps)
    | inr f ↦
        rw (f, e) (own-fresh d (p ∷ seen) ps ∙ ap (λ zs. fresh zs (own d ps)) (own-drop d p seen e))
  ]
]

pub own-push_rows :
    (d : Bytes) (ps seen : List Requisite)
    → own d (push_rows ps seen) ≡ push_rows (own d ps) (own d seen)
own-push_rows d [] seen = refl
own-push_rows d (p ∷ ps) seen =
    own-push_rows d ps (p ∷ seen)
    ∙ elim (Bool-cases (same p.0 d)) [ inl e ↦ rw e refl | inr e ↦ rw e refl ]

push_rows-is_in :
    (p : Requisite) (ps seen : List Requisite)
    → is_in p seen ≡ true
    → is_in p (push_rows ps seen) ≡ true
unfolding is_in
push_rows-is_in p [] seen h = h
push_rows-is_in p (q ∷ ps) seen h = push_rows-is_in p ps (q ∷ seen) (ground arith)

pub fresh-Within : (seen ps : List Requisite) → Within ps (push_rows (fresh seen ps) seen)
unfolding fresh is_in
fresh-Within seen [] = tt
fresh-Within seen (p ∷ ps) =
    if_rule (λ xs. Within (p ∷ ps) (push_rows xs seen)) (is_in p seen) _ _
      (λ e. (push_rows-is_in p (fresh seen ps) seen e, fresh-Within seen ps))
      (λ e. (
        push_rows-is_in p (fresh (p ∷ seen) ps) (p ∷ seen) (rw (same_row_refl p) refl),
        fresh-Within (p ∷ seen) ps,
      ))

pub fresh_known : (seen ps : List Requisite) → Within ps seen → fresh seen ps ≡ []
unfolding fresh
fresh_known seen [] h = refl
fresh_known seen (p ∷ ps) (i, h) = rw i (fresh_known seen ps h)
