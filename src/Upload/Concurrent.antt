-- ===== src/Upload/Concurrent.antt =====
-- Uploads at the same time, as `processUploads` starts them: their writes reach the bucket in any
-- order that keeps the order of each.
use nixcached.Prelude.{
  eq_self, ℕ, ◌≡◌, ◌≢◌, refl, sym, ap, ◌∙◌, Bool, true, false, List, [], ◌∷◌, ◌++◌, some, ◌==◌, inl,
  inr, Bool-cases, if◌then◌else◌, map, Bytes, same, same_refl, same_sound,
}
use nixcached.Upload.{Event, put}
use nixcached.Upload.Bucket.{
  Store, apply_event, visible, apply_event-other, apply_event-same, apply_event-failed,
}
use nixcached.Upload.Trace.{Emits, nothing, content_failed, without_listing, with_listing}

-- The writes of one upload among those of all.
unfoldable pub own : ℕ → List (ℕ × Event) → List Event
own i [] = []
own i ((j, e) ∷ run) = if j == i then e ∷ own i run else own i run

abbrev pub events : List (ℕ × Event) → List Event
events run = map (λ (x : ℕ × Event). x.1) run

-- The archive that an upload sends, and its info.
pub record Target : Type 0 where
  pub url : Bytes
  pub content : Bytes
  pub text : Bytes

-- The writes are those of a target, or one write to the info by an upload that has found it.
pub data Writes (key listing : Bytes) (IsTarget : Target → Type 0) (Found : Type 0)
    (es : List Event) : Type 0 where
  quiet : es ≡ [] → Writes key listing IsTarget Found es
  sends :
      (t : Target)
      → IsTarget t
      → Emits t.url t.content listing key t.text es
      → Writes key listing IsTarget Found es
  adds :
      Found
      → (x m : Bytes) (ok : Bool) → es ≡ put key x m ok ∷ []
      → Writes key listing IsTarget Found es

module _ (key listing : ℕ → Bytes) (IsTarget : ℕ → Target → Type 0) (Found : ℕ → Type 0)
    (key_url : (i j : ℕ) (t : Target) → IsTarget j t → key i ≢ t.url)
    (listing_url : (i j : ℕ) (t : Target) → IsTarget j t → listing i ≢ t.url)
    (listing_key : (i j : ℕ) → listing i ≢ key j)
    (same_content : (i j : ℕ) (t u : Target)
      → IsTarget i t
      → IsTarget j u
      → t.url ≡ u.url
      → t.content ≡ u.content)
    (start : Store) where
  abbrev pub Sees : Store → Target → Type 0
  Sees s t = s t.url ≡ some t.content

  -- What an upload has still to write.
  pub data Rest (i : ℕ) (s : Store) (es : List Event) : Type 0 where
    ahead : Writes (key i) (listing i) (IsTarget i) (Found i) es → Rest i s es
    listing_next :
        (t : Target)
        → IsTarget i t
        → Sees s t
        → (l lm m : Bytes) (lok ok : Bool)
        → es ≡ put (listing i) l lm lok ∷ put (key i) t.text m ok ∷ []
        → Rest i s es
    info_next :
        (t : Target)
        → IsTarget i t
        → Sees s t
        → (m : Bytes) (ok : Bool) → es ≡ put (key i) t.text m ok ∷ []
        → Rest i s es

  -- What a write may be.
  data Kind (i : ℕ) (s : Store) : Event → Type 0 where
    of_content :
        (t : Target) → IsTarget i t → (m : Bytes) (ok : Bool) → Kind i s (put t.url t.content m ok)
    of_listing : (l m : Bytes) (ok : Bool) → Kind i s (put (listing i) l m ok)
    of_info :
        (t : Target)
        → IsTarget i t
        → Sees s t
        → (m : Bytes) (ok : Bool) → Kind i s (put (key i) t.text m ok)
    of_found : Found i → (x m : Bytes) (ok : Bool) → Kind i s (put (key i) x m ok)

  Sees-step :
      (i j : ℕ) (s : Store) (e : Event) (t : Target)
      → IsTarget j t
      → Kind i s e
      → Sees s t
      → Sees (apply_event e s) t
  Sees-step i j s _ t h (of_content u g m false) see =
      apply_event-failed u.url u.content m t.url s ∙ see
  Sees-step i j s _ t h (of_content u g m true) see = elim (Bool-cases (same u.url t.url)) [
    | inl e ↦
        let q = same_sound u.url t.url e in
        ap (apply_event (put u.url u.content m true) s) (sym q)
        ∙ apply_event-same u.url u.content m s
        ∙ ap some (same_content i j u t g h q)
    | inr e ↦
        apply_event-other u.url u.content m t.url true s
          (λ q. cc (e, ap (λ (x : Bytes). same x t.url) q ∙ same_refl t.url))
        ∙ see
  ]
  Sees-step i j s _ t h (of_listing l m ok) see =
      apply_event-other (listing i) l m t.url ok s (listing_url i j t h) ∙ see
  Sees-step i j s _ t h (of_info u g v m ok) see =
      apply_event-other (key i) u.text m t.url ok s (key_url i j t h) ∙ see
  Sees-step i j s _ t h (of_found f x m ok) see =
      apply_event-other (key i) x m t.url ok s (key_url i j t h) ∙ see

  Rest-other :
      (i j : ℕ) (s : Store) (e : Event) (es : List Event)
      → Kind i s e
      → Rest j s es
      → Rest j (apply_event e s) es
  Rest-other i j s e es k (ahead w) = ahead w
  Rest-other i j s e es k (listing_next t h see l lm m lok ok q) =
      listing_next t h (Sees-step i j s e t h k see) l lm m lok ok q
  Rest-other i j s e es k (info_next t h see m ok q) =
      info_next t h (Sees-step i j s e t h k see) m ok q

  -- The head of a list of writes, and what is behind it.
  abbrev Advances : ℕ → Store → Event → List Event → Type 0
  Advances i s e es = Kind i s e × Rest i (apply_event e s) es

  advance_via :
      (i : ℕ) (s : Store) (e f : Event) (es fs : List Event)
      → e ∷ es ≡ f ∷ fs
      → Advances i s f fs
      → Advances i s e es
  advance_via i s e f es fs q (k, r) =
      let a : e ≡ f = cc q in let b : es ≡ fs = cc q in rw (a, b) (k, r)

  advance :
      (i : ℕ) (s : Store) (e : Event) (es : List Event) → Rest i s (e ∷ es) → Advances i s e es
  advance i s e es (ahead (quiet q)) = cc q
  advance i s e es (ahead (adds f x m ok q)) =
      advance_via i s e _ es _ q (of_found f x m ok, ahead (quiet refl))
  advance i s e es (ahead (sends t h (nothing q))) = cc q
  advance i s e es (ahead (sends t h (content_failed m q))) =
      advance_via i s e _ es _ q (of_content t h m false, ahead (quiet refl))
  advance i s e es (ahead (sends t h (without_listing c m ok q))) =
      advance_via i s e _ es _ q
        (of_content t h c true, info_next t h (apply_event-same t.url t.content c s) m ok refl)
  advance i s e es (ahead (sends t h (with_listing c l lm m lok ok q))) =
      advance_via i s e _ es _ q (
        of_content t h c true,
        listing_next t h (apply_event-same t.url t.content c s) l lm m lok ok refl,
      )
  advance i s e es (listing_next t h see l lm m lok ok q) = advance_via i s e _ es _ q (
    of_listing l lm lok,
    info_next t h (Sees-step i i s (put (listing i) l lm lok) t h (of_listing l lm lok) see) m ok
        refl,
  )
  advance i s e es (info_next t h see m ok q) =
      advance_via i s e _ es _ q (of_info t h see m ok, ahead (quiet refl))

  -- What a reader finds under the key of an upload.
  pub data Good (k : ℕ) (s : Store) : Type 0 where
    unchanged : s (key k) ≡ start (key k) → Good k s
    whole :
        (i : ℕ) (t : Target)
        → IsTarget i t
        → key i ≡ key k
        → s (key k) ≡ some t.text
        → Sees s t
        → Good k s
    with_found : (i : ℕ) → Found i → key i ≡ key k → Good k s

  -- A write under another key.
  Good-other :
      (i k : ℕ) (s : Store) (e : Event)
      → Kind i s e
      → apply_event e s (key k) ≡ s (key k)
      → Good k s
      → Good k (apply_event e s)
  Good-other i k s e d q (unchanged u) = unchanged (q ∙ u)
  Good-other i k s e d q (whole j t h y x see) = whole j t h y (q ∙ x) (Sees-step i j s e t h d see)
  Good-other i k s e d q (with_found j f y) = with_found j f y

  Good-step : (i k : ℕ) (s : Store) (e : Event) → Kind i s e → Good k s → Good k (apply_event e s)
  Good-step i k s _ (of_content t h m ok) g =
      Good-other i k s (put t.url t.content m ok) (of_content t h m ok)
        (apply_event-other t.url t.content m (key k) ok s (λ q. key_url k i t h (sym q))) g
  Good-step i k s _ (of_listing l m ok) g =
      Good-other i k s (put (listing i) l m ok) (of_listing l m ok)
        (apply_event-other (listing i) l m (key k) ok s (listing_key i k)) g
  Good-step i k s _ (of_info t h see m false) g =
      Good-other i k s (put (key i) t.text m false) (of_info t h see m false)
        (apply_event-failed (key i) t.text m (key k) s) g
  Good-step i k s _ (of_info t h see m true) g = elim (Bool-cases (same (key i) (key k))) [
    | inl e ↦
        let q = same_sound (key i) (key k) e in
        whole i t h q
          (ap (apply_event (put (key i) t.text m true) s) (sym q)
            ∙ apply_event-same (key i) t.text m s)
          (Sees-step i i s (put (key i) t.text m true) t h (of_info t h see m true) see)
    | inr e ↦
        Good-other i k s (put (key i) t.text m true) (of_info t h see m true)
          (apply_event-other (key i) t.text m (key k) true s
            (λ q. cc (e, ap (λ (x : Bytes). same x (key k)) q ∙ same_refl (key k))))
          g
  ]
  Good-step i k s _ (of_found f x m ok) g = elim (Bool-cases (same (key i) (key k))) [
    | inl e ↦ with_found i f (same_sound (key i) (key k) e)
    | inr e ↦
        Good-other i k s (put (key i) x m ok) (of_found f x m ok)
          (apply_event-other (key i) x m (key k) ok s
            (λ q. cc (e, ap (λ (y : Bytes). same y (key k)) q ∙ same_refl (key k))))
          g
  ]

  mine :
      (i j : ℕ) (s : Store) (e : Event) (run : List (ℕ × Event)) (more : List Event)
      → j == i ≡ true
      → Rest i s (own i ((j, e) ∷ run) ++ more)
      → Advances i s e (own i run ++ more)
  unfolding own
  mine i j s e run more q h = advance i s e (own i run ++ more) (rw q at h)

  others :
      (i j : ℕ) (s : Store) (e : Event) (run : List (ℕ × Event)) (more : List Event)
      → j == i ≡ false
      → Kind j s e
      → Rest i s (own i ((j, e) ∷ run) ++ more)
      → Rest i (apply_event e s) (own i run ++ more)
  unfolding own
  others i j s e run more q d h = Rest-other j i s e (own i run ++ more) d (rw q at h)

  pub Good-run :
      (k : ℕ) (run : List (ℕ × Event)) (rest : ℕ → List Event) (s : Store)
      → ((i : ℕ) → Rest i s (own i run ++ rest i))
      → Good k s
      → Good k (visible (events run) s)
  unfolding visible
  Good-run k [] rest s h g = g
  Good-run k ((j, e) ∷ run) rest s h g =
      let d : Kind j s e = (mine j j s e run (rest j) (eq_self j) (h j)).0 in
      Good-run k run rest (apply_event e s)
        (λ i. elim (Bool-cases (j == i)) [
          | inl q ↦ (mine i j s e run (rest i) q (h i)).1
          | inr q ↦ others i j s e run (rest i) q d (h i)
        ])
        (Good-step j k s e d g)
