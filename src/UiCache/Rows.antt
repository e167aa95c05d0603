-- ===== src/UiCache/Rows.antt =====
-- What stands behind a row of the index page.
use nixcached.Prelude.{
  ◌≡◌, refl, sym, ap, fun_ext, ◌∙◌, Bool, true, false, ◌&&◌, ◌||◌, not, arith, List, [], ◌∷◌, ◌++◌,
  if_rule, Bool-cases, inl, inr, All, keep, keep-append, is_empty, Bytes, same, same_refl,
  same_sound,
}
use nixcached.UiCache.{
  Row, Database, insert_row, in_order, is_relevant, name_of, is_behind, rows_behind, any_row,
  has_more,
}
use nixcached.UiCache.Order.{
  is_before, is_before_irrefl, is_before_trans, IsInOrder, DiffersFrom, IsDistinct, All-in_order,
  in_order-IsInOrder,
}

keep-and :
    (p q : Row → Bool) (xs : List Row) → keep (λ (r : Row). p r && q r) xs ≡ keep q (keep p xs)
keep-and p q [] = refl
keep-and p q (x ∷ xs) = elim (Bool-cases (p x)) [
  | inr n ↦ rw n (keep-and p q xs)
  | inl y ↦ elim (Bool-cases (q x)) [
    | inl z ↦ rw (y, z) (ap (λ l. x ∷ l) (keep-and p q xs))
    | inr z ↦ rw (y, z) (keep-and p q xs)
  ]
]

keep_self : (p : Row → Bool) (xs : List Row) → All (λ r. p r ≡ true) xs → keep p xs ≡ xs
keep_self p [] h = refl
keep_self p (x ∷ xs) (e, h) = rw e (ap (λ l. x ∷ l) (keep_self p xs h))

keep_none : (p : Row → Bool) (xs : List Row) → All (λ r. p r ≡ false) xs → keep p xs ≡ []
keep_none p [] h = refl
keep_none p (x ∷ xs) (e, h) = rw e (keep_none p xs h)

keep-All : (P : Row → Type 0) (p : Row → Bool) (xs : List Row) → All P xs → All P (keep p xs)
keep-All P p [] h = tt
keep-All P p (x ∷ xs) (e, h) =
    if_rule (All P) (p x) _ _ (λ _. (e, keep-All P p xs h)) (λ _. keep-All P p xs h)

keep-IsInOrder : (p : Row → Bool) (xs : List Row) → IsInOrder xs → IsInOrder (keep p xs)
keep-IsInOrder p [] h = tt
keep-IsInOrder p (x ∷ xs) (e, h) =
    if_rule IsInOrder (p x) _ _ (λ _. (keep-All _ p xs e, keep-IsInOrder p xs h))
      (λ _. keep-IsInOrder p xs h)

-- A row of a list in order: what comes before it is not behind it, what follows is.
before_row :
    (front rest : List Row) (x : Row)
    → IsInOrder (front ++ x ∷ rest)
    → All (λ r. is_before x r ≡ false) front
before_row [] rest x h = tt
before_row (y ∷ front) rest x (e, h) = (asym (at_row front e), before_row front rest x h)
  where
    at_row :
        (front : List Row)
        → All (λ r. is_before y r ≡ true) (front ++ x ∷ rest)
        → is_before y x ≡ true
    at_row [] (f, g) = f
    at_row (z ∷ front) (f, g) = at_row front g

    asym : is_before y x ≡ true → is_before x y ≡ false
    asym f = elim (Bool-cases (is_before x y)) [
      | inr g ↦ g
      | inl g ↦ cc (is_before_trans x y x g f, is_before_irrefl x)
    ]

behind_row :
    (front rest : List Row) (x : Row)
    → IsInOrder (front ++ x ∷ rest)
    → All (λ r. is_before x r ≡ true) rest
behind_row [] rest x (e, h) = e
behind_row (y ∷ front) rest x (e, h) = behind_row front rest x h

keep_behind :
    (front rest : List Row) (x : Row)
    → IsInOrder (front ++ x ∷ rest)
    → keep (is_before x) (front ++ x ∷ rest) ≡ rest
keep_behind front rest x h =
    keep-append (is_before x) front (x ∷ rest)
    ∙ rw (keep_none (is_before x) front (before_row front rest x h), is_before_irrefl x)
        (keep_self (is_before x) rest (behind_row front rest x h))

-- The name that the page's statement looks up.
abbrev IsNamed : List Row → Row → Type 0
IsNamed rows x = name_of rows x.path_digest ≡ x.path_name

name_of-cons :
    (y : Row) (rows xs : List Row)
    → All (DiffersFrom y.path_digest) xs
    → All (IsNamed rows) xs
    → All (IsNamed (y ∷ rows)) xs
unfolding name_of
name_of-cons y rows [] d h = tt
name_of-cons y rows (x ∷ xs) (d, ds) (e, h) = (skip, name_of-cons y rows xs ds h)
  where
    skip : name_of (y ∷ rows) x.path_digest ≡ x.path_name
    skip = elim (Bool-cases (same y.path_digest x.path_digest)) [
      | inl s ↦ absurd (d (sym (same_sound y.path_digest x.path_digest s)))
      | inr s ↦ rw s e
    ]

rows-IsNamed : (rows : List Row) → IsDistinct rows → All (IsNamed rows) rows
unfolding name_of
rows-IsNamed [] d = tt
rows-IsNamed (x ∷ xs) (d, ds) =
    (rw (same_refl x.path_digest) refl, name_of-cons x xs xs d (rows-IsNamed xs ds))

-- Rows of which the page's condition is the order.
abbrev pub matching : Database → Bytes → List Row
matching db query = keep (is_relevant query) (in_order db.objects)

pub matching-All :
    (P : Row → Type 0) (db : Database) (query : Bytes)
    → All P db.objects
    → All P (matching db query)
matching-All P db query h =
    keep-All P (is_relevant query) (in_order db.objects) (All-in_order P db.objects h)

-- The first page begins with the first row.
pub rows_behind-nil : (db : Database) (query : Bytes) → rows_behind db query [] ≡ matching db query
unfolding rows_behind is_behind
rows_behind-nil db query =
    keep-and (is_relevant query) (λ r. true) (in_order db.objects)
    ∙ keep_self (λ r. true) _ (all_true _)
  where
    all_true : (xs : List Row) → All (λ r. true ≡ true) xs
    all_true [] = tt
    all_true (x ∷ xs) = (refl, all_true xs)

pub All_at : (P : Row → Type 0) (front rest : List Row) (x : Row) → All P (front ++ x ∷ rest) → P x
All_at P [] rest x (p, h) = p
All_at P (y ∷ front) rest x (p, h) = All_at P front rest x h

behind_named :
    (rows : List Row) (x : Row)
    → is_empty x.path_digest ≡ false
    → name_of rows x.path_digest ≡ x.path_name
    → is_behind rows x.path_digest ≡ is_before x
unfolding is_behind
behind_named rows x n e = fun_ext (λ r. rw (n, e) refl)

-- A page behind the row `x` begins with the row after it.
pub rows_behind-row :
    (db : Database) (query : Bytes) (front rest : List Row) (x : Row)
    → IsDistinct db.objects
    → is_empty x.path_digest ≡ false
    → matching db query ≡ front ++ x ∷ rest
    → rows_behind db query x.path_digest ≡ rest
unfolding rows_behind is_behind
rows_behind-row db query front rest x d n e =
    let named : name_of db.objects x.path_digest ≡ x.path_name =
      All_at (IsNamed db.objects) front rest x
        (rw e at (matching-All (IsNamed db.objects) db query (rows-IsNamed db.objects d))) in
    let ordered : IsInOrder (front ++ x ∷ rest) = rw e at (
      keep-IsInOrder (is_relevant query) (in_order db.objects) (in_order-IsInOrder db.objects d)) in
    keep-and (is_relevant query) (is_behind db.objects x.path_digest) (in_order db.objects)
    ∙ ap (λ p. keep p (matching db query)) (behind_named db.objects x n named)
    ∙ ap (keep (is_before x)) e
    ∙ keep_behind front rest x ordered

any_row-insert_row :
    (p : Row → Bool) (x : Row) (xs : List Row) → any_row p (insert_row x xs) ≡ (p x || any_row p xs)
unfolding any_row insert_row
any_row-insert_row p x [] = refl
any_row-insert_row p x (y ∷ xs) =
    if_rule (λ l. any_row p l ≡ (p x || (p y || any_row p xs))) (is_before x y) _ _ (λ _. refl)
      (λ _. ground (arith, any_row-insert_row p x xs))

any_row-in_order : (p : Row → Bool) (xs : List Row) → any_row p (in_order xs) ≡ any_row p xs
unfolding any_row in_order
any_row-in_order p [] = refl
any_row-in_order p (x ∷ xs) =
    any_row-insert_row p x (in_order xs) ∙ ap (λ b. p x || b) (any_row-in_order p xs)

any_row-keep : (p : Row → Bool) (xs : List Row) → any_row p xs ≡ not (is_empty (keep p xs))
unfolding any_row
any_row-keep p [] = refl
any_row-keep p (x ∷ xs) = ground (arith, any_row-keep p xs)

-- There is more exactly if a row stands behind.
pub has_more-rows_behind :
    (db : Database) (query after : Bytes)
    → has_more db query after ≡ not (is_empty (rows_behind db query after))
unfolding has_more rows_behind
has_more-rows_behind db query after =
    sym (any_row-in_order _ db.objects) ∙ any_row-keep _ (in_order db.objects)
