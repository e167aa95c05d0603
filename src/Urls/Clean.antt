-- ===== src/Urls/Clean.antt =====
-- `path.Clean` on paths that begin with a slash.
use nixcached.Prelude.{
  ℕ, ◌≡◌, refl, ap, ◌∙◌, Bool, true, arith, List, [], ◌∷◌, ◌++◌, ◌==◌, All, Bytes, codes, same,
}
use nixcached.Urls.{elements, push, push_all, rooted_path, clean_rooted, clean}
use nixcached.Urls.Elements.{IsPlain, push_all-All, elements-All, elements-append, elements-plain}

abbrev pub backwards : List Bytes → List Bytes
backwards [] = []
backwards (e ∷ es) = backwards es ++ e ∷ []

push_all-append :
    (rooted : Bool) (fs gs es : List Bytes)
    → push_all rooted (fs ++ gs) es ≡ push_all rooted gs (push_all rooted fs es)
unfolding push_all
push_all-append rooted [] gs es = refl
push_all-append rooted (f ∷ fs) gs es = push_all-append rooted fs gs (push rooted f es)

push-plain : (rooted : Bool) (e : Bytes) (es : List Bytes) → IsPlain e → push rooted e es ≡ e ∷ es
unfolding push
push-plain rooted e es p = rw (p.filled, p.here, p.up) refl

push_all-plain :
    (rooted : Bool) (es : List Bytes) → All IsPlain es → push_all rooted (backwards es) [] ≡ es
unfolding push_all
push_all-plain rooted [] h = refl
push_all-plain rooted (e ∷ es) (p, h) =
    push_all-append rooted (backwards es) (e ∷ []) []
    ∙ ap (push rooted e) (push_all-plain rooted es h)
    ∙ push-plain rooted e es p

-- The elements of a path that is put together of plain ones: nothing before the slash, and those.
pub elements-rooted_path :
    (es : List Bytes) → All IsPlain es → elements (rooted_path es) ≡ [] ∷ backwards es
unfolding rooted_path elements
elements-rooted_path [] h = refl
elements-rooted_path (e ∷ es) (p, h) =
    elements-append (rooted_path es) e
    ∙ ap (λ l. l ++ elements e) (elements-rooted_path es h)
    ∙ ap (λ l. [] ∷ (backwards es ++ l)) (elements-plain e p.whole)

pub rooted_path-slash :
    (e : Bytes) (es : List Bytes) → (t : Bytes) × (rooted_path (e ∷ es) ≡ 47 ∷ t)
unfolding rooted_path
rooted_path-slash e [] = (e, refl)
rooted_path-slash e (f ∷ es) =
    let (t, p) = rooted_path-slash f es in
    (t ++ (codes "/" ++ e), ap (λ s. s ++ (codes "/" ++ e)) p)

head : {c d : ℕ} {s t : Bytes} → c ∷ s ≡ d ∷ t → c ≡ d
head e = cc e

pub clean-slash :
    (s t : Bytes) → s ≡ 47 ∷ t → clean s ≡ clean_rooted (push_all true (elements s) [])
unfolding clean
clean-slash [] t e = cc e
clean-slash (c ∷ s) t e = let h : (c == 47) ≡ true = ground (arith, head e) in rw h refl

-- A path of plain elements is clean as it stands.
pub clean-rooted_path :
    (e : Bytes) (es : List Bytes)
    → All IsPlain (e ∷ es)
    → clean (rooted_path (e ∷ es)) ≡ rooted_path (e ∷ es)
unfolding push_all push same clean_rooted
clean-rooted_path e es h =
    let (t, p) = rooted_path-slash e es in
    clean-slash (rooted_path (e ∷ es)) t p
    ∙ ap (λ l. clean_rooted (push_all true l [])) (elements-rooted_path (e ∷ es) h)
    ∙ ap clean_rooted (push_all-plain true (e ∷ es) h)

-- What is cleaned and begins with a slash is put together of plain elements.
pub clean-IsPlain :
    (s t : Bytes) → s ≡ 47 ∷ t → (es : List Bytes) × All IsPlain es × (clean s ≡ clean_rooted es)
clean-IsPlain s t e = (
  push_all true (elements s) [],
  push_all-All (elements s) [] (elements-All s) tt,
  clean-slash s t e,
)
