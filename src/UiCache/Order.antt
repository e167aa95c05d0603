-- ===== src/UiCache/Order.antt =====
-- The order of the rows on the index page.
use nixcached.Prelude.{
  ◌≡◌, ◌≢◌, refl, sym, ◌∙◌, Bool, true, false, ◌&&◌, ◌||◌, arith, List, [], ◌∷◌, if_rule,
  and-eq_true, Bool-cases, inl, inr, ◌⊎◌, All, Bytes, same, same_refl, same_sound,
}
use nixcached.HashPart.Order.{bytes_le_refl, bytes_le_trans}
use nixcached.HashPart.Total.{bytes_le_total, bytes_le_antisym}
use nixcached.UiCache.{Row, bytes_lt, is_after, insert_row, in_order}

-- `x` comes before `y`.
abbrev pub is_before : Row → Row → Bool
is_before x y = is_after x.path_name x.path_digest y

bytes_lt_irrefl : (s : Bytes) → bytes_lt s s ≡ false
unfolding bytes_lt
bytes_lt_irrefl s = rw (bytes_le_refl s) refl

bytes_lt_trans : (s t u : Bytes) → bytes_lt s t ≡ true → bytes_lt t u ≡ true → bytes_lt s u ≡ true
unfolding bytes_lt
bytes_lt_trans s t u h k = ground (arith, bytes_le_total t s, bytes_le_trans u s t)

bytes_lt_total : (s t : Bytes) → bytes_lt s t ≡ false → bytes_lt t s ≡ false → s ≡ t
unfolding bytes_lt
bytes_lt_total s t h k = bytes_le_antisym s t (ground arith) (ground arith)

pub is_before_irrefl : (x : Row) → is_before x x ≡ false
unfolding is_after
is_before_irrefl x =
    rw (bytes_lt_irrefl x.path_name, bytes_lt_irrefl x.path_digest, same_refl x.path_name) refl

or-cases : (p q : Bool) → (p || q) ≡ true → (p ≡ true) ⊎ (q ≡ true)
or-cases p q h = ground arith

-- Pairs of texts are ordered by the first, and then by the second.
abbrev pair_lt : Bytes → Bytes → Bytes → Bytes → Bool
pair_lt a b c d = bytes_lt a c || (same a c && bytes_lt b d)

pair_lt-cases :
    (a b c d : Bytes)
    → pair_lt a b c d ≡ true
    → (bytes_lt a c ≡ true) ⊎ ((a ≡ c) × (bytes_lt b d ≡ true))
pair_lt-cases a b c d h = elim (or-cases (bytes_lt a c) (same a c && bytes_lt b d) h) [
  | inl e ↦ inl e
  | inr e ↦ let (f, g) = and-eq_true (same a c) (bytes_lt b d) e in inr (same_sound a c f, g)
]

pair_lt-first : (a b c d : Bytes) → bytes_lt a c ≡ true → pair_lt a b c d ≡ true
pair_lt-first a b c d h = rw h refl

pair_lt-second : (a b d : Bytes) → bytes_lt b d ≡ true → pair_lt a b a d ≡ true
pair_lt-second a b d h = rw (bytes_lt_irrefl a, same_refl a, h) refl

pair_lt_trans :
    (a b c d e f : Bytes) → pair_lt a b c d ≡ true → pair_lt c d e f ≡ true → pair_lt a b e f ≡ true
pair_lt_trans a b c d e f h k = elim (pair_lt-cases a b c d h) [
  | inl p ↦ elim (pair_lt-cases c d e f k) [
    | inl q ↦ pair_lt-first a b e f (bytes_lt_trans a c e p q)
    | inr (q, r) ↦ pair_lt-first a b e f (rw q at p)
  ]
  | inr (p, r) ↦ elim (pair_lt-cases c d e f k) [
    | inl q ↦ pair_lt-first a b e f (rw p q)
    | inr (q, t) ↦ rw (p ∙ q) (pair_lt-second e b f (bytes_lt_trans b d f r t))
  ]
]

pub is_before_trans :
    (x y z : Row) → is_before x y ≡ true → is_before y z ≡ true → is_before x z ≡ true
unfolding is_after
is_before_trans x y z h k =
    pair_lt_trans x.path_name x.path_digest y.path_name y.path_digest z.path_name z.path_digest h k

pair_lt_total : (a b c d : Bytes) → pair_lt a b c d ≡ false → pair_lt c d a b ≡ false → b ≡ d
pair_lt_total a b c d h k =
    let (p, q) = or-eq_false (bytes_lt a c) (same a c && bytes_lt b d) h in
    let (r, t) = or-eq_false (bytes_lt c a) (same c a && bytes_lt d b) k in
    let e : a ≡ c = bytes_lt_total a c p r in
    bytes_lt_total b d (rw (e, same_refl c) at q) (rw (e, same_refl c) at t)
  where
    or-eq_false : (p q : Bool) → (p || q) ≡ false → (p ≡ false) × (q ≡ false)
    or-eq_false p q h = ground arith

pub is_before_total :
    (x y : Row) → is_before x y ≡ false → is_before y x ≡ false → x.path_digest ≡ y.path_digest
unfolding is_after
is_before_total x y h k = pair_lt_total x.path_name x.path_digest y.path_name y.path_digest h k

-- Rows in strict order.
abbrev pub IsInOrder : List Row → Type 0
IsInOrder [] = Unit
IsInOrder (x ∷ xs) = All (λ y. is_before x y ≡ true) xs × IsInOrder xs

-- Rows with different digests.
abbrev pub DiffersFrom : Bytes → Row → Type 0
DiffersFrom d row = row.path_digest ≢ d

abbrev pub IsDistinct : List Row → Type 0
IsDistinct [] = Unit
IsDistinct (x ∷ xs) = All (DiffersFrom x.path_digest) xs × IsDistinct xs

pub All-insert_row :
    (P : Row → Type 0) (x : Row) (ys : List Row) → P x → All P ys → All P (insert_row x ys)
unfolding insert_row
All-insert_row P x [] p q = (p, tt)
All-insert_row P x (y ∷ ys) p (q, r) =
    if_rule (All P) (is_before x y) _ _ (λ e. (p, (q, r))) (λ e. (q, All-insert_row P x ys p r))

pub All-in_order : (P : Row → Type 0) (xs : List Row) → All P xs → All P (in_order xs)
unfolding in_order
All-in_order P [] q = tt
All-in_order P (x ∷ xs) (p, q) = All-insert_row P x (in_order xs) p (All-in_order P xs q)

All-map : {P Q : Row → Type 0} (f : (r : Row) → P r → Q r) (xs : List Row) → All P xs → All Q xs
All-map f [] q = tt
All-map f (x ∷ xs) (p, q) = (f x p, All-map f xs q)

insert_row-IsInOrder :
    (x : Row) (ys : List Row)
    → All (DiffersFrom x.path_digest) ys
    → IsInOrder ys
    → IsInOrder (insert_row x ys)
unfolding insert_row
insert_row-IsInOrder x [] d s = (tt, tt)
insert_row-IsInOrder x (y ∷ ys) (d, ds) (s, ss) =
    if_rule IsInOrder (is_before x y) _ _
      (λ e. ((e, All-map (λ r p. is_before_trans x y r e p) ys s), (s, ss)))
      (λ e. (All-insert_row _ x ys (after e) s, insert_row-IsInOrder x ys ds ss))
  where
    after : is_before x y ≡ false → is_before y x ≡ true
    after e = elim (Bool-cases (is_before y x)) [
      | inl f ↦ f
      | inr f ↦ absurd (d (sym (is_before_total x y e f)))
    ]

pub in_order-IsInOrder : (xs : List Row) → IsDistinct xs → IsInOrder (in_order xs)
unfolding in_order
in_order-IsInOrder [] d = tt
in_order-IsInOrder (x ∷ xs) (d, ds) =
    insert_row-IsInOrder x (in_order xs) (All-in_order _ xs d) (in_order-IsInOrder xs ds)
