-- ===== src/Urls/Bucket/Keys.antt =====
-- The keys that `urlKey` takes from URLs.
use nixcached.Prelude.{
  ◌≡◌, refl, sym, ap, ◌∙◌, Bool, true, false, ◌||◌, not, arith, List, [], ◌∷◌, ◌++◌, append_assoc,
  Option, some, some_inj, if_rule, Bool-cases, Option-cases, inl, inr, ◌⊎◌, All, has_prefix, ◌==◌,
  All-append, length, length-append, drop, is_empty, Bytes, codes, same, same_refl, same_sound,
  cut_prefix, cut_prefix_sound,
}
use nixcached.Urls.{Url, elements, rooted_path, clean_rooted, clean}
use nixcached.Urls.Elements.{IsPlain, elements-append}
use nixcached.Urls.Clean.{backwards, elements-rooted_path, rooted_path-slash, clean-IsPlain}
use nixcached.Urls.Relative.{clean-relative}
use nixcached.Urls.Bucket.{BucketUrl, bucket_path, open_bucket, url_key}

-- The bucket's path is put together of plain elements, or empty.
pub record IsOpen (b : BucketUrl) : Type 0 where
  pub parts : List Bytes
  pub plain : All IsPlain parts
  pub path : b.path ≡ rooted_path parts

clean_rooted-filled :
    (es : List Bytes)
    → same (clean_rooted es) (codes "/") ≡ false
    → clean_rooted es ≡ rooted_path es
unfolding clean_rooted same
clean_rooted-filled [] n = cc n
clean_rooted-filled (e ∷ es) n = refl

bucket_path-IsPlain :
    (path : Bytes) → (es : List Bytes) × All IsPlain es × (bucket_path path ≡ rooted_path es)
unfolding bucket_path rooted_path
bucket_path-IsPlain path =
    let (es, h, e) = clean-IsPlain (codes "/" ++ path) path refl in
    if_rule (λ c. (fs : List Bytes) × All IsPlain fs × (c ≡ rooted_path fs))
      (same (clean (codes "/" ++ path)) (codes "/")) _ _ (λ _. ([], tt, refl))
      (λ n. (es, h, e ∙ clean_rooted-filled es (ap (λ c. same c (codes "/")) (sym e) ∙ n)))

-- Opening a bucket yields such a path, whatever the URL says.
pub open_bucket-IsOpen :
    (parse : Bytes → Option Url) (opens : Url → Bool) (text : Bytes) (b : BucketUrl)
    → open_bucket parse opens text ≡ some b
    → IsOpen b
unfolding open_bucket
open_bucket-IsOpen parse opens text b h = elim (Option-cases (parse text)) [
  | inl e ↦ cc (rw (e, open_bucket) at h)
  | inr (u, e) ↦
      if_rule (λ o. o ≡ some b → IsOpen b) (is_empty u.scheme) _ _ (λ _ k. cc k)
        (λ _.
          if_rule (λ o. o ≡ some b → IsOpen b) (not (is_empty u.opaque)) _ _ (λ _ k. cc k)
            (λ _.
              if_rule (λ o. o ≡ some b → IsOpen b) (not (opens u)) _ _ (λ _ k. cc k)
                (λ _ k.
                  let (es, p, q) = bucket_path-IsPlain u.path in
                  record {
                    parts = es;
                    plain = p;
                    path = ap (λ (x : BucketUrl). x.path) (sym (some_inj k)) ∙ q;
                  })))
        (rw (e, open_bucket) at h)
]

-- What the guards of `urlKey` compare.
pub record IsServed (b : BucketUrl) (u : Url) : Type 0 where
  pub scheme : u.scheme ≡ b.scheme
  pub host : u.host ≡ b.host
  pub opaque : is_empty u.opaque ≡ true
  pub fragment : is_empty u.fragment ≡ true
  pub raw_query : is_empty u.raw_query ≡ true

url_key-IsServed :
    (b : BucketUrl) (u : Url) (key : Bytes)
    → url_key b u ≡ some key
    → IsServed b u × (clean u.path ≡ b.path ++ (codes "/" ++ key))
unfolding url_key
url_key-IsServed b u key h =
    if_rule (λ o. o ≡ some key → IsServed b u × (clean u.path ≡ b.path ++ (codes "/" ++ key)))
      (not (is_empty u.opaque) || not (is_empty u.fragment) || not (is_empty u.raw_query)) _ _
      (λ _ k. cc k)
      (λ m.
        if_rule (λ o. o ≡ some key → IsServed b u × (clean u.path ≡ b.path ++ (codes "/" ++ key)))
          (not (same u.scheme b.scheme) || not (same u.host b.host)) _ _ (λ _ k. cc k)
          (λ n k. (
            record {
              scheme = same_sound u.scheme b.scheme (ground (arith, n));
              host = same_sound u.host b.host (ground (arith, n));
              opaque = ground (arith, m);
              fragment = ground (arith, m);
              raw_query = ground (arith, m);
            },
            cut_prefix_sound (b.path ++ codes "/") (clean u.path) k
                ∙ append_assoc b.path (codes "/") key,
          )))
      h

pub url_key-cut :
    (b : BucketUrl) (u : Url)
    → IsServed b u
    → url_key b u ≡ cut_prefix (b.path ++ codes "/") (clean u.path)
unfolding url_key
url_key-cut b u s =
    rw (s.opaque, s.fragment, s.raw_query, s.scheme, s.host, same_refl b.scheme, same_refl b.host)
      refl

All-suffix : (P : Bytes → Type 0) (xs ys : List Bytes) → All P (xs ++ ys) → All P ys
All-suffix P [] ys h = h
All-suffix P (x ∷ xs) ys (p, h) = All-suffix P xs ys h

pub All-backwards : (P : Bytes → Type 0) (es : List Bytes) → All P es → All P (backwards es)
All-backwards P [] h = tt
All-backwards P (e ∷ es) (p, h) =
    All-append P (backwards es) (e ∷ []) (All-backwards P es h) (p, tt)

last_empty : (xs key : Bytes) → xs ++ (codes "/" ++ key) ≡ codes "/" → key ≡ []
last_empty [] [] e = refl
last_empty [] (c ∷ key) e = cc e
last_empty (x ∷ xs) key e = absurd (omega (arith, ap length e, length-append xs (codes "/" ++ key)))

-- What stands behind a path of plain elements in a clean path is plain.
tail-IsPlain :
    (parts es : List Bytes) (key : Bytes)
    → All IsPlain parts
    → All IsPlain es
    → clean_rooted es ≡ rooted_path parts ++ (codes "/" ++ key)
    → (key ≡ []) ⊎ All IsPlain (elements key)
unfolding clean_rooted
tail-IsPlain parts [] key p h e = inl (last_empty (rooted_path parts) key (sym e))
tail-IsPlain parts (f ∷ es) key p h e =
    let split : [] ∷ backwards (f ∷ es) ≡ [] ∷ (backwards parts ++ elements key) =
      sym (elements-rooted_path (f ∷ es) h)
      ∙ ap elements e
      ∙ elements-append (rooted_path parts) key
      ∙ ap (λ l. l ++ elements key) (elements-rooted_path parts p) in
    let tails : backwards (f ∷ es) ≡ backwards parts ++ elements key = ap (drop 1) split in
    inr (
      All-suffix IsPlain (backwards parts) (elements key)
        (rw tails at (All-backwards IsPlain (f ∷ es) h)))

pub has_slash :
    (parts : List Bytes) (key : Bytes)
    → has_prefix (codes "/") (rooted_path parts ++ (codes "/" ++ key)) ≡ true
unfolding has_prefix rooted_path
has_slash [] key = refl
has_slash (e ∷ es) key =
    let (t, p) = rooted_path-slash e es in
    ap (λ s. has_prefix (codes "/") (s ++ (codes "/" ++ key))) p

clean_nothing : has_prefix (codes "/") (clean []) ≡ false
unfolding has_prefix clean
clean_nothing = refl

-- A clean path below the bucket's path comes from one that begins with a slash.
rooted-url :
    (parts : List Bytes) (path key : Bytes)
    → clean path ≡ rooted_path parts ++ (codes "/" ++ key)
    → (t : Bytes) × (path ≡ 47 ∷ t)
unfolding has_prefix
rooted-url parts [] key e = cc (ap (has_prefix (codes "/")) e, has_slash parts key, clean_nothing)
rooted-url parts (c ∷ s) key e = elim (Bool-cases (c == 47)) [
  | inl f ↦ (s, ap (λ d. d ∷ s) (ground (arith, f)))
  | inr f ↦ cc (ap (has_prefix (codes "/")) e, has_slash parts key, clean-relative c s f)
]

-- A key that `urlKey` takes from a URL, where the bucket was opened by `OpenBucket`, stays below the
-- bucket: the URL has the bucket's scheme and host, its cleaned path is the bucket's path, a slash and
-- the key, and the key is empty or has neither `.` nor `..` nor nothing between its slashes.
pub url_key-stays :
    (b : BucketUrl) (u : Url) (key : Bytes)
    → IsOpen b
    → url_key b u ≡ some key
    → IsServed b u
      × (clean u.path ≡ b.path ++ (codes "/" ++ key))
      × ((key ≡ []) ⊎ All IsPlain (elements key))
url_key-stays b u key o h =
    let (s, e) = url_key-IsServed b u key h in
    let below : clean u.path ≡ rooted_path o.parts ++ (codes "/" ++ key) =
      e ∙ ap (λ p. p ++ (codes "/" ++ key)) o.path in
    let (t, r) = rooted-url o.parts u.path key below in
    let (es, p, c) = clean-IsPlain u.path t r in
    (s, e, tail-IsPlain o.parts es key o.plain p (sym c ∙ below))
