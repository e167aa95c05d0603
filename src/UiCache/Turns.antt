-- ===== src/UiCache/Turns.antt =====
-- The recursion of uicache/index.sql ends: no row is added twice, and all of them are references of
-- some object.
use nixcached.Prelude.{
  ℕ, suc, ◌+◌, ◌≤◌, ◌≡◌, refl, sym, ap, ◌∙◌, Bool, true, false, ◌&&◌, ◌||◌, arith, List, [], ◌∷◌,
  ◌++◌, length, length-append, some, Option-cases, Bool-cases, inl, inr, if◌then◌else◌, if_rule,
  All, All-append, Bytes, same, same_refl, same_sound, and-eq_true,
}
use nixcached.UiCache.{Row, Database}
use nixcached.UiCache.Sql.{Formats, is_member, store_path_digest}
use nixcached.UiCache.Closure.{
  Requisite, is_in, fresh, push_rows, references_of, first_rows, rows_of, next_rows, recur,
  all_rows, requisites,
}

abbrev pub same_row : Requisite → Requisite → Bool
same_row p q = same p.0 q.0 && same p.1 q.1

abbrev Distinct : List Requisite → Type 0
Distinct [] = Unit {0}
Distinct (p ∷ ps) = (is_in p ps ≡ false) × Distinct ps

abbrev pub Within : List Requisite → List Requisite → Type 0
Within xs ys = All (λ p. is_in p ys ≡ true) xs

pub same_row_sound : (p q : Requisite) → same_row p q ≡ true → p ≡ q
same_row_sound (a, b) (c, d) h =
    let (e, f) = and-eq_true (same a c) (same b d) h in
    ap (λ (x : Bytes). (x, b)) (same_sound a c e) ∙ ap (λ (x : Bytes). (c, x)) (same_sound b d f)

pub same_row_refl : (p : Requisite) → same_row p p ≡ true
same_row_refl p = rw (same_refl p.0, same_refl p.1) refl

same_row_via : (p x q : Requisite) → same_row p q ≡ true → same_row x q ≡ true → same_row p x ≡ true
same_row_via p x q h i =
    ap (same_row p) (same_row_sound x q i ∙ sym (same_row_sound p q h)) ∙ same_row_refl p

pub is_in-append :
    (p : Requisite) (xs ys : List Requisite) → is_in p (xs ++ ys) ≡ (is_in p xs || is_in p ys)
unfolding is_in
is_in-append p [] ys = refl
is_in-append p (x ∷ xs) ys = ground (arith, is_in-append p xs ys)

-- A list without the first row that is this one.
without : Requisite → List Requisite → List Requisite
without p [] = []
without p (q ∷ qs) = if same_row p q then qs else q ∷ without p qs

length-without :
    (p : Requisite) (ys : List Requisite)
    → is_in p ys ≡ true
    → length ys ≡ suc (length (without p ys))
unfolding is_in without
length-without p [] h = cc h
length-without p (q ∷ ys) h = elim (Bool-cases (same_row p q)) [
  | inl e ↦ rw e refl
  | inr e ↦ rw e (ap suc (length-without p ys (ground arith)))
]

is_in-without :
    (p x : Requisite) (ys : List Requisite)
    → same_row p x ≡ false
    → is_in x ys ≡ true
    → is_in x (without p ys) ≡ true
unfolding is_in without
is_in-without p x [] n h = cc h
is_in-without p x (q ∷ ys) n h = elim (Bool-cases (same_row p q)) [
  | inl e ↦ elim (Bool-cases (same_row x q)) [
    | inl f ↦ absurd (cc (n, same_row_via p x q e f))
    | inr f ↦ rw e (ground arith)
  ]
  | inr e ↦ rw e (ground (arith, is_in-without p x ys n))
]

Within-without :
    (p : Requisite) (xs ys : List Requisite)
    → is_in p xs ≡ false
    → Within xs ys
    → Within xs (without p ys)
unfolding is_in
Within-without p [] ys n h = tt
Within-without p (x ∷ xs) ys n (i, h) =
    (is_in-without p x ys (ground arith) i, Within-without p xs ys (ground arith) h)

-- Different rows of a list are no more than the list is long.
Distinct-length : (xs ys : List Requisite) → Distinct xs → Within xs ys → length xs ≤ length ys
Distinct-length [] ys d h = omega arith
Distinct-length (x ∷ xs) ys (n, d) (i, h) =
    omega (
      arith,
      length-without x ys i,
      Distinct-length xs (without x ys) d (Within-without x xs ys n h),
    )

pub Within-right : (zs xs ys : List Requisite) → Within xs ys → Within xs (zs ++ ys)
Within-right zs [] ys h = tt
Within-right zs (x ∷ xs) ys (i, h) =
    (rw (is_in-append x zs ys) (ground arith), Within-right zs xs ys h)

Within-left : (zs xs ys : List Requisite) → Within xs ys → Within xs (ys ++ zs)
Within-left zs [] ys h = tt
Within-left zs (x ∷ xs) ys (i, h) =
    (rw (is_in-append x ys zs) (ground arith), Within-left zs xs ys h)

pub Within-cons : (z : Requisite) (xs ys : List Requisite) → Within xs ys → Within xs (z ∷ ys)
Within-cons z xs ys h = Within-right (z ∷ []) xs ys h

Within-self : (xs : List Requisite) → Within xs xs
unfolding is_in
Within-self [] = tt
Within-self (x ∷ xs) = (rw (same_row_refl x) refl, Within-cons x xs xs (Within-self xs))

Within-fresh : (seen ps ys : List Requisite) → Within ps ys → Within (fresh seen ps) ys
unfolding fresh
Within-fresh seen [] ys h = tt
Within-fresh seen (p ∷ ps) ys (i, h) =
    if_rule (λ xs. Within xs ys) (is_in p seen) _ _ (λ _. Within-fresh seen ps ys h)
      (λ _. (i, Within-fresh (p ∷ seen) ps ys h))

Within-push_rows :
    (new seen ys : List Requisite) → Within new ys → Within seen ys → Within (push_rows new seen) ys
Within-push_rows [] seen ys n h = h
Within-push_rows (p ∷ new) seen ys (i, n) h = Within-push_rows new (p ∷ seen) ys n (i, h)

Distinct-push_rows :
    (ps seen : List Requisite) → Distinct seen → Distinct (push_rows (fresh seen ps) seen)
unfolding fresh
Distinct-push_rows [] seen d = d
Distinct-push_rows (p ∷ ps) seen d =
    if_rule (λ xs. Distinct (push_rows xs seen)) (is_in p seen) _ _
      (λ _. Distinct-push_rows ps seen d) (λ e. Distinct-push_rows ps (p ∷ seen) (e, d))

length-push_rows :
    (new seen : List Requisite) → length (push_rows new seen) ≡ length new + length seen
length-push_rows [] seen = omega arith
length-push_rows (p ∷ new) seen = omega (arith, length-push_rows new (p ∷ seen))

module _ (fm : Formats) where
  rows_of-Within : (d : Bytes) (rows : List Row) → Within (rows_of fm d rows) (all_rows fm rows)
  unfolding rows_of
  rows_of-Within d [] = tt
  rows_of-Within d (row ∷ rows) =
      let rest =
        Within-right (references_of fm row) (rows_of fm d rows) (all_rows fm rows)
          (rows_of-Within d rows) in
      let own =
        Within-left (all_rows fm rows) (references_of fm row) (references_of fm row)
          (Within-self (references_of fm row)) in
      if_rule (λ xs. Within (xs ++ rows_of fm d rows) (references_of fm row ++ all_rows fm rows))
        (same row.path_digest d) _ _
        (λ _.
          All-append (λ p. is_in p (references_of fm row ++ all_rows fm rows) ≡ true)
            (references_of fm row) (rows_of fm d rows) own rest)
        (λ _. rest)

  first_rows-Within :
      (relevant : List Bytes) (rows : List Row)
      → Within (first_rows fm relevant rows) (all_rows fm rows)
  unfolding first_rows
  first_rows-Within relevant [] = tt
  first_rows-Within relevant (row ∷ rows) =
      let rest =
        Within-right (references_of fm row) (first_rows fm relevant rows) (all_rows fm rows)
          (first_rows-Within relevant rows) in
      let own =
        Within-left (all_rows fm rows) (references_of fm row) (references_of fm row)
          (Within-self (references_of fm row)) in
      if_rule
        (λ xs.
          Within (xs ++ first_rows fm relevant rows) (references_of fm row ++ all_rows fm rows))
        (is_member row.path_digest relevant) _ _
        (λ _.
          All-append (λ p. is_in p (references_of fm row ++ all_rows fm rows) ≡ true)
            (references_of fm row) (first_rows fm relevant rows) own rest)
        (λ _. rest)

  next_rows-Within :
      (rows : List Row) (p : Requisite) → Within (next_rows fm rows p) (all_rows fm rows)
  unfolding next_rows
  next_rows-Within rows p = elim (Option-cases (store_path_digest fm (some p.1))) [
    | inl n ↦ rw (n, next_rows) tt
    | inr (d, e) ↦ rw (e, next_rows) (rows_of-Within d rows)
  ]

  -- The recursion ends, since every turn takes a row off the queue and every row is put on it once.
  -- What the rows so far have to do with is kept by every turn.
  recur_rule :
      (P : List Requisite → Type 0) (rows : List Row)
      → ((seen : List Requisite) (p : Requisite)
          → P seen
          → P (push_rows (fresh seen (next_rows fm rows p)) seen))
      → (fuel : ℕ) (seen queue : List Requisite) → Distinct seen
      → Within seen (all_rows fm rows)
      → suc (length (all_rows fm rows)) + length queue ≤ fuel + length seen
      → P seen
      → (r : List Requisite) × (recur fm fuel rows seen queue ≡ some r) × P r
  unfolding recur
  recur_rule P rows keeps ℕ.zero seen queue d w b h =
      absurd (omega (arith, b, Distinct-length seen (all_rows fm rows) d w))
  recur_rule P rows keeps (suc fuel) seen [] d w b h = (seen, refl, h)
  recur_rule P rows keeps (suc fuel) seen (p ∷ queue) d w b h =
      let next = next_rows fm rows p in
      recur_rule P rows keeps fuel (push_rows (fresh seen next) seen) (queue ++ fresh seen next)
        (Distinct-push_rows next seen d)
        (Within-push_rows (fresh seen next) seen (all_rows fm rows)
          (Within-fresh seen next (all_rows fm rows) (next_rows-Within rows p)) w)
        (omega (
          arith,
          b,
          length-push_rows (fresh seen next) seen,
          length-append queue (fresh seen next),
        ))
        (keeps seen p h)

  pub requisites_rule :
      (P : List Requisite → Type 0) (db : Database) (relevant : List Bytes)
      → ((seen : List Requisite) (p : Requisite)
          → P seen
          → P (push_rows (fresh seen (next_rows fm db.objects p)) seen))
      → P (push_rows (fresh [] (first_rows fm relevant db.objects)) [])
      → (r : List Requisite) × (requisites fm db relevant ≡ some r) × P r
  unfolding requisites
  requisites_rule P db relevant keeps h =
      let first = first_rows fm relevant db.objects in
      recur_rule P db.objects keeps (suc (length (all_rows fm db.objects)))
        (push_rows (fresh [] first) []) (fresh [] first) (Distinct-push_rows first [] tt)
        (Within-push_rows (fresh [] first) [] (all_rows fm db.objects)
          (Within-fresh [] first (all_rows fm db.objects) (first_rows-Within relevant db.objects))
          tt)
        (omega (arith, length-push_rows (fresh [] first) [])) h
