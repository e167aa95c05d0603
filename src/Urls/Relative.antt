-- ===== src/Urls/Relative.antt =====
-- `path.Clean` on paths that do not begin with a slash: neither does the result.
use nixcached.Prelude.{
  ◌≡◌, refl, false, ◌||◌, arith, List, [], ◌∷◌, ◌++◌, if_rule, All, is_empty, Bytes, codes, same,
  has_prefix, contains_byte, ◌==◌, ℕ,
}
use nixcached.Urls.{elements, go_up, push, push_all, relative_path, clean_relative, clean}
use nixcached.Urls.Elements.{elements-All}

-- A text that is not empty and does not begin with a slash.
abbrev IsInner : Bytes → Type 0
IsInner e = (is_empty e ≡ false) × (has_prefix (codes "/") e ≡ false)

up-All : (es : List Bytes) → All IsInner es → All IsInner (go_up false es)
unfolding go_up has_prefix
up-All [] h = ((refl, refl), tt)
up-All (e ∷ es) (p, h) =
    if_rule (All IsInner) (same e (codes "..")) _ _ (λ _. ((refl, refl), (p, h))) (λ _. h)

whole-IsInner : (e : Bytes) → contains_byte 47 e ≡ false → same e [] ≡ false → IsInner e
unfolding has_prefix contains_byte same
whole-IsInner [] w n = cc n
whole-IsInner (c ∷ e) w n = (refl, ground (arith, w))

push-All :
    (es : List Bytes) (e : Bytes)
    → contains_byte 47 e ≡ false
    → All IsInner es
    → All IsInner (push false e es)
unfolding push
push-All es e w h =
    if_rule (All IsInner) (same e [] || same e (codes ".")) _ _ (λ _. h)
      (λ n.
        if_rule (All IsInner) (same e (codes "..")) _ _ (λ _. up-All es h)
          (λ _. (whole-IsInner e w (ground (arith, n)), h)))

push_all-All :
    (fs es : List Bytes)
    → All (λ f. contains_byte 47 f ≡ false) fs
    → All IsInner es
    → All IsInner (push_all false fs es)
unfolding push_all
push_all-All [] es w h = h
push_all-All (f ∷ fs) es (v, w) h = push_all-All fs (push false f es) w (push-All es f v h)

append-IsInner : (e f : Bytes) → IsInner e → IsInner (e ++ f)
unfolding has_prefix
append-IsInner [] f (n, h) = cc n
append-IsInner (c ∷ e) f (n, h) = (refl, h)

clean_relative-IsInner : (es : List Bytes) → All IsInner es → IsInner (clean_relative es)
unfolding clean_relative relative_path has_prefix
clean_relative-IsInner [] h = (refl, refl)
clean_relative-IsInner (e ∷ []) (p, h) = p
clean_relative-IsInner (e ∷ f ∷ es) (p, h) =
    append-IsInner (relative_path (f ∷ es)) (codes "/" ++ e) (clean_relative-IsInner (f ∷ es) h)

pub clean-relative :
    (c : ℕ) (s : Bytes) → (c == 47) ≡ false → has_prefix (codes "/") (clean (c ∷ s)) ≡ false
unfolding clean
clean-relative c s n =
    rw n
      (clean_relative-IsInner (push_all false (elements (c ∷ s)) [])
        (push_all-All (elements (c ∷ s)) [] (elements-All (c ∷ s)) tt)).1
