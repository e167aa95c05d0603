-- ===== src/Upload/Kept.antt =====
-- The bucket stays a bucket for the local store directory while objects are uploaded.
use nixcached.Prelude.{
  eq_self, ℕ, ◌≡◌, ◌≢◌, refl, sym, ap, ◌∙◌, false, List, [], ◌∷◌, ◌++◌, none, some, Option-cases,
  ◌⊎◌, inl, inr, ◌==◌, Bool-cases, All, Bytes, codes, has_prefix,
}
use nixcached.Upload.{NarInfo, Event, put, World, UploadOptions, found, upload_store_path}
use nixcached.Upload.Bucket.{Store, apply_event, visible, visible-append, apply_event-other}
use nixcached.Upload.Trace.{nothing, content_failed, without_listing, with_listing}
use nixcached.Upload.CacheInfo.{CacheWorld, ensure_cache_info, remote_dir, ensure_cache_info-IsFor}
use nixcached.Upload.Publish.{apart_of_prefix}
use nixcached.Upload.Concurrent.{Target, Writes, quiet, sends, adds, own, events}
use nixcached.Upload.Together.{Sends, Finds, key_of, listing_of, Sends-url, upload-Writes}
use nixcached.Intake.Setup.{Opener, ready, prepare}

abbrev Misses : Bytes → Event → Type 0
Misses name (put key content mime ok) = key ≢ name

Misses-visible :
    (name : Bytes) (es : List Event) (s : Store) → All (Misses name) es → visible es s name ≡ s name
unfolding visible
Misses-visible name [] s h = refl
Misses-visible name (put key content mime ok ∷ es) s (m, h) =
    Misses-visible name es (apply_event (put key content mime ok) s) h
    ∙ apply_event-other key content mime name ok s m

visible-empty : (s : Store) (name : Bytes) → visible [] s name ≡ s name
unfolding visible
visible-empty s name = refl

Writes-Misses :
    (name key listing : Bytes) (IsTarget : Target → Type 0) (Found : Type 0) (es : List Event)
    → key ≢ name
    → listing ≢ name
    → ((t : Target) → IsTarget t → t.url ≢ name)
    → Writes key listing IsTarget Found es
    → All (Misses name) es
Writes-Misses name key listing T F es k l u (quiet e) = rw e tt
Writes-Misses name key listing T F es k l u (adds f x m ok e) = rw e (k, tt)
Writes-Misses name key listing T F es k l u (sends t s (nothing e)) = rw e tt
Writes-Misses name key listing T F es k l u (sends t s (content_failed m e)) = rw e (u t s, tt)
Writes-Misses name key listing T F es k l u (sends t s (without_listing m n ok e)) =
    rw e (u t s, (k, tt))
Writes-Misses name key listing T F es k l u (sends t s (with_listing m x lm n lok ok e)) =
    rw e (u t s, (l, (k, tt)))

own-Misses :
    (name : Bytes) (run : List (ℕ × Event)) (rest : ℕ → List Event)
    → ((i : ℕ) → All (Misses name) (own i run ++ rest i))
    → All (Misses name) (events run)
unfolding own
own-Misses name [] rest h = tt
own-Misses name ((j, e) ∷ run) rest h = (
  (rw (eq_self j) at (h j)).0,
  own-Misses name run rest
      (λ i. elim (Bool-cases (j == i)) [ inl q ↦ (rw q at (h i)).1 | inr q ↦ rw q at (h i) ]),
)

ready-ensure :
    {E : Type 0} (o : Opener E) (w : CacheWorld E) (url dir : Bytes) (h : List Event)
    → prepare o w url dir ≡ ready h
    → ((ensure_cache_info w dir []).0 ≡ none) × (h ≡ (ensure_cache_info w dir []).1)
unfolding prepare
ready-ensure o w url dir h q = elim (Option-cases o.new_bucket_url_opener) [
  | inr (e, a) ↦ cc (rw (a, prepare) at q)
  | inl a ↦ elim (Option-cases (o.open_bucket url)) [
    | inr (e, b) ↦ cc (rw (a, prepare, b) at q)
    | inl b ↦ elim (Option-cases (ensure_cache_info w dir []).0) [
      | inr (e, c) ↦ cc (rw (a, prepare, b, c) at q)
      | inl c ↦
          let r : ready h ≡ ready (ensure_cache_info w dir []).1 =
            sym (rw (a, prepare, b, c) at q) in
          (c, cc r)
    ]
  ]
]

-- Where `runUpload` gets to its loop, the bucket's `nix-cache-info` file is from then on, at every
-- moment while any number of uploads go on at the same time, one that is made from the local store
-- directory, or the one that was there at the start and that names it (or names none, where it is
-- the default). What was read of the file at the start is what was there. Its name is not that of
-- an info or a listing and not in the directory of archives.
pub prepare-Kept :
    {E E' L : Type 0} (o : Opener E) (c : CacheWorld E) (url dir : Bytes) (before : List Event)
    (start : Store) (w : ℕ → World E' L) (info : ℕ → NarInfo) (opts : ℕ → UploadOptions)
    → prepare o c url dir ≡ ready before
    → ((text : Bytes)
        → c.read_all [] c.cache_info_name ≡ found text
        → start c.cache_info_name ≡ some text)
    → has_prefix (codes "nar/") c.cache_info_name ≡ false
    → ((i : ℕ) → key_of w info opts i ≢ c.cache_info_name)
    → ((i : ℕ) → listing_of w info opts i ≢ c.cache_info_name)
    → (run : List (ℕ × Event)) (rest : ℕ → List Event)
    → ((i : ℕ) → (upload_store_path (w i) (info i) (opts i) []).1 ≡ own i run ++ rest i)
    → (text : Bytes) × (visible (before ++ events run) start c.cache_info_name ≡ some text)
      × ((c.marshal_cache_info dir ≡ some text)
          ⊎ ((remote : Bytes) × (c.unmarshal_cache_info text ≡ some remote)
              × (remote_dir c remote ≡ dir)))
prepare-Kept o c url dir before start w info opts p honest n k l run rest h =
    let (none_, b) = ready-ensure o c url dir before p in
    let name = c.cache_info_name in
    let misses : All (Misses name) (events run) = own-Misses name run rest (λ i. rw (← h i) (
      Writes-Misses name (key_of w info opts i) (listing_of w info opts i) (Sends w info opts i)
        (Finds w info opts i) _ (k i) (l i)
        (λ t s q. apart_of_prefix name t.url n (Sends-url w info opts i t s) (sym q))
        (upload-Writes (w i) (info i) (opts i)))) in
    let seen : visible (before ++ events run) start name ≡ visible before start name =
      ap (λ (s : Store). s name) (visible-append before (events run) start)
      ∙ Misses-visible name (events run) (visible before start) misses in
    elim (ensure_cache_info-IsFor c dir [] start none_) [
      | inl (text, remote, r, u, d, q) ↦ (
        text,
        seen ∙ ap (λ es. visible es start name) (b ∙ q) ∙ visible-empty start name ∙ honest text r,
        inr (remote, u, d),
      )
      | inr (text, r, m, v) ↦ (text, seen ∙ ap (λ es. visible es start name) b ∙ v, inl m)
    ]
