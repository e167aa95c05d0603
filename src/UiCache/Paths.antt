-- ===== src/UiCache/Paths.antt =====
-- Store paths by their last element, and sorting along a function.
use nixcached.Prelude.{
  ℕ, ◌≡◌, refl, sym, ap, ◌∙◌, true, false, arith, List, [], ◌∷◌, ◌++◌, append_assoc, Option, some,
  if_rule, Bool-cases, inl, inr, All, map, is_empty, Bytes, contains_byte,
}
use nixcached.HashPart.{bytes_le}
use nixcached.UiCache.Sql.{strip_slashes, after_slash, base, traverse, insert_text, sort_texts}

strip_slashes_plain :
    (c : ℕ) (s : Bytes) → contains_byte 47 (c ∷ s) ≡ false → strip_slashes (c ∷ s) ≡ c ∷ s
unfolding strip_slashes contains_byte
strip_slashes_plain c [] h = ground arith
strip_slashes_plain c (d ∷ s) h = rw (strip_slashes_plain d s (ground arith), strip_slashes) refl

strip_slashes-append :
    (r : Bytes) (c : ℕ) (s : Bytes)
    → contains_byte 47 (c ∷ s) ≡ false
    → strip_slashes (r ++ c ∷ s) ≡ r ++ c ∷ s
unfolding strip_slashes
strip_slashes-append [] c s h = strip_slashes_plain c s h
strip_slashes-append (d ∷ []) c s h = rw (strip_slashes-append [] c s h, strip_slashes) refl
strip_slashes-append (d ∷ e ∷ r) c s h = rw (strip_slashes-append (e ∷ r) c s h, strip_slashes) refl

contains_slash : (dir s : Bytes) → contains_byte 47 (dir ++ 47 ∷ s) ≡ true
unfolding contains_byte
contains_slash [] s = refl
contains_slash (c ∷ dir) s = ground (arith, contains_slash dir s)

after_slash-append : (dir s : Bytes) → contains_byte 47 s ≡ false → after_slash (dir ++ 47 ∷ s) ≡ s
unfolding after_slash
after_slash-append [] s h = rw h refl
after_slash-append (c ∷ dir) s h = rw (contains_slash dir s) (after_slash-append dir s h)

-- The last element of a path in a directory.
pub base-join :
    (dir s : Bytes) → is_empty s ≡ false → contains_byte 47 s ≡ false → base (dir ++ 47 ∷ s) ≡ s
unfolding base
base-join dir [] n h = cc n
base-join [] (c ∷ s) n h =
    rw (strip_slashes-append (47 ∷ []) c s h, base) (after_slash-append [] (c ∷ s) h)
base-join (d ∷ dir) (c ∷ s) n h =
    rw (regroup, strip_slashes-append (d ∷ (dir ++ 47 ∷ [])) c s h, base)
      (rw (sym regroup) (after_slash-append (d ∷ dir) (c ∷ s) h))
  where
    regroup : d ∷ (dir ++ 47 ∷ c ∷ s) ≡ (d ∷ (dir ++ 47 ∷ [])) ++ c ∷ s
    regroup = sym (append_assoc (d ∷ dir) (47 ∷ []) (c ∷ s))

insert_text-map :
    {A B : Type 0} (f : A → B) (key : B → Bytes) (x : A) (xs : List A)
    → insert_text key (f x) (map f xs) ≡ map f (insert_text (λ a. key (f a)) x xs)
unfolding insert_text
insert_text-map f key x [] = refl
insert_text-map f key x (y ∷ xs) = elim (Bool-cases (bytes_le (key (f x)) (key (f y)))) [
  | inl e ↦ rw e refl
  | inr e ↦ rw e (ap (λ l. f y ∷ l) (insert_text-map f key x xs))
]

pub sort_texts-map :
    {A B : Type 0} (f : A → B) (key : B → Bytes) (xs : List A)
    → sort_texts key (map f xs) ≡ map f (sort_texts (λ a. key (f a)) xs)
unfolding sort_texts
sort_texts-map f key [] = refl
sort_texts-map f key (x ∷ xs) =
    ap (insert_text key (f x)) (sort_texts-map f key xs)
    ∙ insert_text-map f key x (sort_texts (λ a. key (f a)) xs)

All-insert_text :
    {A : Type 0} (P : A → Type 0) (key : A → Bytes) (x : A) (xs : List A)
    → P x
    → All P xs
    → All P (insert_text key x xs)
unfolding insert_text
All-insert_text P key x [] p h = (p, tt)
All-insert_text P key x (y ∷ xs) p (q, h) =
    if_rule (All P) (bytes_le (key x) (key y)) _ _ (λ _. (p, (q, h)))
      (λ _. (q, All-insert_text P key x xs p h))

pub All-sort_texts :
    {A : Type 0} (P : A → Type 0) (key : A → Bytes) (xs : List A)
    → All P xs
    → All P (sort_texts key xs)
unfolding sort_texts
All-sort_texts P key [] h = tt
All-sort_texts P key (x ∷ xs) (p, h) =
    All-insert_text P key x (sort_texts key xs) p (All-sort_texts P key xs h)

-- A traversal that succeeds on every element.
pub traverse_images :
    {A B : Type 0} (f : A → Option B) (g : A → B) (xs : List A)
    → All (λ x. f x ≡ some (g x)) xs
    → traverse f xs ≡ some (map g xs)
traverse_images f g [] h = refl
traverse_images f g (x ∷ xs) (e, h) = rw (e, traverse_images f g xs h) refl

-- The same behind a map that it undoes.
pub traverse_back :
    {A B : Type 0} (f : B → Option A) (g : A → B) (xs : List A)
    → All (λ x. f (g x) ≡ some x) xs
    → traverse f (map g xs) ≡ some xs
traverse_back f g [] h = refl
traverse_back f g (x ∷ xs) (e, h) = rw (e, traverse_back f g xs h) refl
