-- ===== src/Urls/Elements.antt =====
-- The elements of a path.
use nixcached.Prelude.{
  ℕ, ◌≡◌, refl, ap, ◌∙◌, true, false, ◌||◌, arith, List, [], ◌∷◌, ◌++◌, ◌==◌, if_rule, Bool-cases,
  inl, inr, All, is_empty, Bytes, codes, same, contains_byte,
}
use nixcached.Urls.{put_byte, elements, go_up, push, push_all}

-- An element that a clean path may have.
pub record IsPlain (e : Bytes) : Type 0 where
  pub filled : same e [] ≡ false
  pub here : same e (codes ".") ≡ false
  pub up : same e (codes "..") ≡ false
  pub whole : contains_byte 47 e ≡ false

-- The elements without what a path may have but a clean one may not: nothing, or a dot.
up-All : (es : List Bytes) → All IsPlain es → All IsPlain (go_up true es)
unfolding go_up
up-All [] h = tt
up-All (e ∷ es) (p, h) =
    if_rule (All IsPlain) (same e (codes "..")) _ _ (λ f. absurd (cc (f, p.up))) (λ _. h)

-- Behind a slash at the front no element goes above what is there.
push-All :
    (es : List Bytes) (e : Bytes)
    → contains_byte 47 e ≡ false
    → All IsPlain es
    → All IsPlain (push true e es)
unfolding push
push-All es e w h =
    if_rule (All IsPlain) (same e [] || same e (codes ".")) _ _ (λ _. h)
      (λ f.
        if_rule (All IsPlain) (same e (codes "..")) _ _ (λ _. up-All es h)
          (λ g. (
            record { filled = ground (arith, f); here = ground (arith, f); up = g; whole = w },
            h,
          )))

pub push_all-All :
    (fs es : List Bytes)
    → All (λ f. contains_byte 47 f ≡ false) fs
    → All IsPlain es
    → All IsPlain (push_all true fs es)
unfolding push_all
push_all-All [] es w h = h
push_all-All (f ∷ fs) es (v, w) h = push_all-All fs (push true f es) w (push-All es f v h)

put_byte-All :
    (c : ℕ) (es : List Bytes)
    → All (λ e. contains_byte 47 e ≡ false) es
    → All (λ e. contains_byte 47 e ≡ false) (put_byte c es)
unfolding put_byte contains_byte
put_byte-All c [] h = tt
put_byte-All c (e ∷ es) (p, h) =
    if_rule (All (λ e. contains_byte 47 e ≡ false)) (c == 47) _ _ (λ _. (refl, (p, h)))
      (λ n. (rw (n, p) refl, h))

-- No element has a slash.
pub elements-All : (s : Bytes) → All (λ e. contains_byte 47 e ≡ false) (elements s)
unfolding elements contains_byte
elements-All [] = (refl, tt)
elements-All (c ∷ s) = put_byte-All c (elements s) (elements-All s)

put_byte-append :
    (c : ℕ) (es fs : List Bytes) → is_empty es ≡ false → put_byte c (es ++ fs) ≡ put_byte c es ++ fs
unfolding put_byte
put_byte-append c [] fs n = cc n
put_byte-append c (e ∷ es) fs n = elim (Bool-cases (c == 47)) [
  | inl f ↦ rw (f) refl
  | inr f ↦ rw (f) refl
]

put_byte-is_empty :
    (c : ℕ) (es : List Bytes) → is_empty es ≡ false → is_empty (put_byte c es) ≡ false
unfolding put_byte
put_byte-is_empty c [] n = cc n
put_byte-is_empty c (e ∷ es) n =
    if_rule (λ (l : List Bytes). is_empty l ≡ false) (c == 47) _ _ (λ _. refl) (λ _. refl)

put_byte-slash : (es : List Bytes) → is_empty es ≡ false → put_byte 47 es ≡ [] ∷ es
unfolding put_byte
put_byte-slash [] n = cc n
put_byte-slash (e ∷ es) n = refl

pub elements-is_empty : (s : Bytes) → is_empty (elements s) ≡ false
unfolding elements
elements-is_empty [] = refl
elements-is_empty (c ∷ s) = put_byte-is_empty c (elements s) (elements-is_empty s)

-- A slash separates elements.
pub elements-append : (s t : Bytes) → elements (s ++ (codes "/" ++ t)) ≡ elements s ++ elements t
unfolding elements
elements-append [] t = put_byte-slash (elements t) (elements-is_empty t)
elements-append (c ∷ s) t =
    ap (put_byte c) (elements-append s t)
    ∙ put_byte-append c (elements s) (elements t) (elements-is_empty s)

plain_byte : (c : ℕ) (e : Bytes) → (c == 47) ≡ false → put_byte c (e ∷ []) ≡ (c ∷ e) ∷ []
unfolding put_byte
plain_byte c e n = rw n refl

-- What has no slash is one element.
pub elements-plain : (e : Bytes) → contains_byte 47 e ≡ false → elements e ≡ e ∷ []
unfolding elements contains_byte
elements-plain [] w = refl
elements-plain (c ∷ e) w =
    ap (put_byte c) (elements-plain e (ground (arith, w))) ∙ plain_byte c e (ground (arith, w))
