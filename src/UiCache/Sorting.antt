-- ===== src/UiCache/Sorting.antt =====
-- Texts in the order of Go strings and of SQLite: `order by` on one column, and `sort.Slice` by name.
use nixcached.Prelude.{
  ◌≡◌, refl, Bool, true, false, List, [], ◌∷◌, arith, if_rule, All, count, Bytes,
}
use nixcached.HashPart.{bytes_le}
use nixcached.HashPart.Order.{bytes_le_trans, IsSorted}
use nixcached.UiCache.Sql.{sort_texts, insert_text}

-- The names in their order.
abbrev pub sort_names : List Bytes → List Bytes
sort_names names = sort_texts (λ (s : Bytes). s) names

bytes_le_total : (s t : Bytes) → bytes_le s t ≡ false → bytes_le t s ≡ true
unfolding bytes_le
bytes_le_total [] t h = cc h
bytes_le_total (c ∷ s) [] h = refl
bytes_le_total (c ∷ s) (d ∷ t) h = ground (arith, bytes_le_total s t)

abbrev FromOn : Bytes → Bytes → Type 0
FromOn e f = bytes_le e f ≡ true

insert_text-All :
    (P : Bytes → Type 0) (x : Bytes) (xs : List Bytes)
    → P x
    → All P xs
    → All P (insert_text (λ (s : Bytes). s) x xs)
unfolding insert_text
insert_text-All P x [] p h = (p, tt)
insert_text-All P x (y ∷ ys) p (q, h) =
    if_rule (All P) (bytes_le x y) _ _ (λ e. (p, (q, h))) (λ e. (q, insert_text-All P x ys p h))

FromOn-below : (x y : Bytes) (ys : List Bytes) → FromOn x y → All (FromOn y) ys → All (FromOn x) ys
FromOn-below x y [] h g = tt
FromOn-below x y (z ∷ zs) h (e, g) = (bytes_le_trans x y z h e, FromOn-below x y zs h g)

insert_text-IsSorted :
    (x : Bytes) (xs : List Bytes) → IsSorted xs → IsSorted (insert_text (λ (s : Bytes). s) x xs)
unfolding insert_text
insert_text-IsSorted x [] h = (tt, tt)
insert_text-IsSorted x (y ∷ ys) (g, h) =
    if_rule IsSorted (bytes_le x y) _ _ (λ e. ((e, FromOn-below x y ys e g), (g, h)))
      (λ e. (insert_text-All (FromOn y) x ys (bytes_le_total x y e) g, insert_text-IsSorted x ys h))

pub sort_names-IsSorted : (names : List Bytes) → IsSorted (sort_names names)
unfolding sort_texts
sort_names-IsSorted [] = tt
sort_names-IsSorted (x ∷ xs) = insert_text-IsSorted x (sort_names xs) (sort_names-IsSorted xs)

insert_text-count :
    (p : Bytes → Bool) (x : Bytes) (xs : List Bytes)
    → count p (insert_text (λ (s : Bytes). s) x xs) ≡ count p (x ∷ xs)
unfolding insert_text
insert_text-count p x [] = refl
insert_text-count p x (y ∷ ys) =
    if_rule (λ zs. count p zs ≡ count p (x ∷ y ∷ ys)) (bytes_le x y) _ _ (λ e. refl)
      (λ e. omega (arith, insert_text-count p x ys))

pub sort_names-count :
    (p : Bytes → Bool) (names : List Bytes) → count p (sort_names names) ≡ count p names
unfolding sort_texts
sort_names-count p [] = refl
sort_names-count p (x ∷ xs) =
    omega (arith, insert_text-count p x (sort_names xs), sort_names-count p xs)
