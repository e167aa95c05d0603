-- ===== src/Urls/Bucket/Finds.antt =====
-- The URLs from which `urlKey` takes a key.
use nixcached.Prelude.{
  ℕ, ◌≡◌, refl, sym, ap, ◌∙◌, false, arith, List, [], ◌∷◌, ◌++◌, append_assoc, append-nil, some,
  Bool-cases, inl, inr, All, has_prefix, ◌==◌, All-append, is_empty, Bytes, codes, cut_prefix,
  cut_prefix-append,
}
use nixcached.Urls.{Url, put_byte, elements, rooted_path, clean}
use nixcached.Urls.Elements.{IsPlain, elements-is_empty}
use nixcached.Urls.Clean.{backwards, clean-rooted_path}
use nixcached.Urls.Bucket.{BucketUrl, url_key}
use nixcached.Urls.Bucket.Keys.{IsOpen, IsServed, has_slash, url_key-cut, All-backwards}

-- The path of the elements, put together from the front.
path_from : Bytes → List Bytes → Bytes
path_from p [] = p
path_from p (e ∷ es) = path_from (p ++ (codes "/" ++ e)) es

path_from-backwards :
    (fs es : List Bytes) → rooted_path (backwards fs ++ es) ≡ path_from (rooted_path es) fs
unfolding rooted_path path_from
path_from-backwards [] es = refl
path_from-backwards (f ∷ fs) es =
    ap rooted_path (append_assoc (backwards fs) (f ∷ []) es) ∙ path_from-backwards fs (f ∷ es)

put_first : Bytes → List Bytes → List Bytes
put_first x [] = []
put_first x (e ∷ es) = (x ++ e) ∷ es

put_first-slash :
    (x p : Bytes) (es : List Bytes)
    → is_empty es ≡ false
    → path_from p (put_first x (put_byte 47 es))
      ≡ path_from (p ++ (codes "/" ++ x)) (put_first [] es)
unfolding path_from put_first put_byte
put_first-slash x p [] n = cc n
put_first-slash x p (e ∷ es) n = ap (λ y. path_from (p ++ (codes "/" ++ y)) (e ∷ es)) (append-nil x)

put_first-other :
    (c : ℕ) (x : Bytes) (es : List Bytes)
    → (c == 47) ≡ false
    → put_first x (put_byte c es) ≡ put_first (x ++ c ∷ []) es
unfolding put_first put_byte
put_first-other c x [] n = refl
put_first-other c x (e ∷ es) n = rw n (ap (λ f. f ∷ es) (sym (append_assoc x (c ∷ []) e)))

path_from-elements :
    (x s p : Bytes) → path_from p (put_first x (elements s)) ≡ p ++ (codes "/" ++ (x ++ s))
unfolding path_from put_first elements
path_from-elements x [] p = refl
path_from-elements x (c ∷ s) p = elim (Bool-cases (c == 47)) [
  | inl f ↦
      let e : c ≡ 47 = ground (arith, f) in
      rw e (
        put_first-slash x p (elements s) (elements-is_empty s)
        ∙ path_from-elements [] s (p ++ (codes "/" ++ x))
        ∙ append_assoc p (codes "/" ++ x) (codes "/" ++ s))
  | inr f ↦
      ap (path_from p) (put_first-other c x (elements s) f)
      ∙ path_from-elements (x ++ c ∷ []) s p
      ∙ ap (λ y. p ++ (codes "/" ++ y)) (append_assoc x (c ∷ []) s)
]

put_first_nil : (es : List Bytes) → put_first [] es ≡ es
unfolding put_first
put_first_nil [] = refl
put_first_nil (e ∷ es) = refl

key-rooted_path :
    (parts : List Bytes) (key : Bytes)
    → rooted_path (backwards (elements key) ++ parts) ≡ rooted_path parts ++ (codes "/" ++ key)
key-rooted_path parts key =
    path_from-backwards (elements key) parts
    ∙ ap (path_from (rooted_path parts)) (sym (put_first_nil (elements key)))
    ∙ path_from-elements [] key (rooted_path parts)

clean_below :
    (parts es : List Bytes) (key : Bytes)
    → All IsPlain es
    → rooted_path es ≡ rooted_path parts ++ (codes "/" ++ key)
    → clean (rooted_path parts ++ (codes "/" ++ key)) ≡ rooted_path parts ++ (codes "/" ++ key)
unfolding rooted_path has_prefix
clean_below parts [] key h e = cc (ap (has_prefix (codes "/")) e, has_slash parts key)
clean_below parts (f ∷ es) key h e = ap clean (sym e) ∙ clean-rooted_path f es h ∙ e

-- For a bucket whose path is put together of plain elements, as `OpenBucket` makes it: a key without
-- `.`, `..` or nothing between its slashes is what `urlKey` takes from the URL with the bucket's scheme
-- and host, without opaque part, query and fragment, whose path is the bucket's path, a slash and the
-- key.
pub url_key-finds :
    (b : BucketUrl) (u : Url) (key : Bytes)
    → IsOpen b
    → IsServed b u
    → u.path ≡ b.path ++ (codes "/" ++ key)
    → All IsPlain (elements key)
    → url_key b u ≡ some key
url_key-finds b u key o s e h =
    let below : u.path ≡ rooted_path o.parts ++ (codes "/" ++ key) =
      e ∙ ap (λ p. p ++ (codes "/" ++ key)) o.path in
    let whole = key-rooted_path o.parts key in
    let plain =
      All-append IsPlain (backwards (elements key)) o.parts (All-backwards IsPlain (elements key) h)
        o.plain in
    let cleaned : clean u.path ≡ u.path =
      ap clean below
      ∙ clean_below o.parts (backwards (elements key) ++ o.parts) key plain whole
      ∙ sym below in
    url_key-cut b u s
    ∙ ap (cut_prefix (b.path ++ codes "/"))
        (cleaned ∙ e ∙ sym (append_assoc b.path (codes "/") key))
    ∙ cut_prefix-append (b.path ++ codes "/") key
