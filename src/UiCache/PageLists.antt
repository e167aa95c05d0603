-- ===== src/UiCache/PageLists.antt =====
-- Lists of rows that are cut into pages, and their last elements.
use nixcached.Prelude.{
  ℕ, zero, suc, ◌≤◌, ◌≡◌, refl, ap, arith, List, [], ◌∷◌, ◌++◌, ◌⊎◌, inl, inr, All, map, length,
  take,
}
use nixcached.Upload.{NarInfo}
use nixcached.UiCache.{Row}
use nixcached.UiCache.Index.{last_of}

pub split_last :
    (x : Row) (xs : List Row) → (init : List Row) × (x ∷ xs ≡ init ++ last_of x xs ∷ [])
split_last x [] = ([], refl)
split_last x (y ∷ xs) = let (init, e) = split_last y xs in (x ∷ init, ap (λ l. x ∷ l) e)

pub last_of-map :
    (f : Row → NarInfo) (x : Row) (xs : List Row) → last_of (f x) (map f xs) ≡ f (last_of x xs)
last_of-map f x [] = refl
last_of-map f x (y ∷ xs) = last_of-map f y xs

pub map-append_rows :
    (f : Row → NarInfo) (xs ys : List Row) → map f (xs ++ ys) ≡ map f xs ++ map f ys
map-append_rows f [] ys = refl
map-append_rows f (x ∷ xs) ys = ap (λ l. f x ∷ l) (map-append_rows f xs ys)

pub map-map :
    (f : Row → NarInfo) (g : NarInfo → NarInfo) (xs : List Row)
    → map g (map f xs) ≡ map (λ r. g (f r)) xs
map-map f g [] = refl
map-map f g (x ∷ xs) = ap (λ l. g (f x) ∷ l) (map-map f g xs)

pub length-take_le : {A : Type 0} (n : ℕ) (xs : List A) → length (take n xs) ≤ n
length-take_le zero xs = omega arith
length-take_le (suc n) [] = omega arith
length-take_le (suc n) (x ∷ xs) = omega (arith, length-take_le n xs)

pub All-prefix : (P : Row → Type 0) (xs ys : List Row) → All P (xs ++ ys) → All P xs
All-prefix P [] ys h = tt
All-prefix P (x ∷ xs) ys (p, h) = (p, All-prefix P xs ys h)

pub All-suffix : (P : Row → Type 0) (xs ys : List Row) → All P (xs ++ ys) → All P ys
All-suffix P [] ys h = h
All-suffix P (x ∷ xs) ys (p, h) = All-suffix P xs ys h

pub All-split :
    (P : Row → Type 0) (xs ys zs : List Row) → xs ++ ys ≡ zs → All P zs → All P xs × All P ys
All-split P xs ys zs e h =
    let g : All P (xs ++ ys) = rw e h in (All-prefix P xs ys g, All-suffix P xs ys g)

pub List-cases : (xs : List Row) → (xs ≡ []) ⊎ ((y : Row) × (ys : List Row) × (xs ≡ y ∷ ys))
List-cases [] = inl refl
List-cases (y ∷ ys) = inr (y, ys, refl)

pub All-last_of : (P : Row → Type 0) (x : Row) (xs : List Row) → All P (x ∷ xs) → P (last_of x xs)
All-last_of P x [] (p, h) = p
All-last_of P x (y ∷ xs) (p, h) = All-last_of P y xs h
