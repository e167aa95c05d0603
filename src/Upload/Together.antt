-- ===== src/Upload/Together.antt =====
-- What readers see while several uploads go on.
use nixcached.Prelude.{
  ℕ, ◌≡◌, ◌≢◌, refl, ap, ◌∙◌, true, false, List, [], ◌++◌, some, ◌==◌, ◌⊎◌, inl, inr, Bool-cases,
  Bytes, codes, same, has_prefix,
}
use nixcached.Upload.{
  NarInfo, Event, found, World, UploadOptions, exists, Dumped, dump, published_info,
  check_upload_overwrite, upload_unchecked, upload_store_path, nar_info_key,
}
use nixcached.Upload.Bucket.{Store, visible}
use nixcached.Upload.Trace.{listing_key, Uploads, upload_unchecked-Uploads, ReadResult-cases}
use nixcached.Upload.Publish.{apart_of_prefix, dump-url, upload_store_path-Uploads}
use nixcached.Upload.Overwrite.{upload_store_path-found}
use nixcached.Upload.Concurrent.{
  own, events, Target, Writes, quiet, sends, adds, ahead, unchanged, whole, with_found, Good-run,
}

module _ {E L : Type 0} (w : World E L) where
  pub exists_found :
      (key : Bytes) (info : NarInfo)
      → (check_upload_overwrite w key info []).0 ≡ exists
      → (text : Bytes) × (w.read_all [] key ≡ found text)
  unfolding check_upload_overwrite
  exists_found key info h = elim (ReadResult-cases (w.read_all [] key)) [
    | inl r ↦ cc (rw (r, check_upload_overwrite) at h)
    | inr (inl (e, r)) ↦ cc (rw (r, check_upload_overwrite) at h)
    | inr (inr f) ↦ f
  ]

  -- An archive that was dumped and checked against what the store reports, and its info.
  abbrev pub IsSent : NarInfo → UploadOptions → Target → Type 0
  IsSent info opts t =
      (d : Dumped L) × (dump w info.store_path opts.compression opts.create_listings ≡ some d)
      × (w.marshal_text (published_info w info d.info) ≡ some t.text)
      × (same d.info.nar_hash info.nar_hash ≡ true)
      × (d.info.nar_size == info.nar_size ≡ true)
      × (t.url ≡ d.info.url)
      × (t.content ≡ d.content)

  -- The upload that may not replace an info has found one.
  abbrev pub HasFound : NarInfo → UploadOptions → Type 0
  HasFound info opts =
      (text : Bytes) × (opts.overwrite ≡ false) × (w.read_all [] (nar_info_key w info) ≡ found text)

  unchecked-overwrite :
      (info : NarInfo) (opts : UploadOptions)
      → opts.overwrite ≡ true
      → upload_store_path w info opts [] ≡ upload_unchecked w info opts (nar_info_key w info) []
  unfolding upload_store_path
  unchecked-overwrite info opts o = rw o refl

  abbrev WritesOf : NarInfo → UploadOptions → List Event → Type 0
  WritesOf info opts es =
      Writes (nar_info_key w info) (listing_key w info) (IsSent info opts) (HasFound info opts) es

  Uploads-Writes :
      (info : NarInfo) (opts : UploadOptions) (es : List Event)
      → Uploads w info opts (nar_info_key w info) [] es
      → WritesOf info opts es
  Uploads-Writes info opts es (fs, e, inl n) = quiet (e ∙ n)
  Uploads-Writes info opts es (fs, e, inr (d, text, b, m, a, c, em)) =
      let t : Target = record { url = d.info.url; content = d.content; text = text } in
      sends t (d, b, m, a, c, refl, refl) (rw e em)

  pub upload-Writes :
      (info : NarInfo) (opts : UploadOptions)
      → WritesOf info opts (upload_store_path w info opts []).1
  upload-Writes info opts = elim (Bool-cases opts.overwrite) [
    | inl o ↦ Uploads-Writes info opts _ (
        rw (unchecked-overwrite info opts o)
          (upload_unchecked-Uploads w info opts (nar_info_key w info) []))
    | inr o ↦ elim (upload_store_path-Uploads w info opts []) [
      | inl u ↦ Uploads-Writes info opts _ u
      | inr c ↦
          let (text, f) = exists_found (nar_info_key w info) info c in
          elim (upload_store_path-found w info opts text [] o f).1 [
            | inl q ↦ quiet q
            | inr (old, new, u, a, b, l, m, q) ↦ adds (text, o, f) new _ _ q
          ]
    ]
  ]

module _ {E L : Type 0} (w : ℕ → World E L) (info : ℕ → NarInfo) (opts : ℕ → UploadOptions) where
  abbrev pub key_of : ℕ → Bytes
  key_of i = nar_info_key (w i) (info i)

  abbrev pub listing_of : ℕ → Bytes
  listing_of i = listing_key (w i) (info i)

  abbrev pub Sends : ℕ → Target → Type 0
  Sends i t = IsSent (w i) (info i) (opts i) t

  abbrev pub Finds : ℕ → Type 0
  Finds i = HasFound (w i) (info i) (opts i)

  -- Two of the archives with one name are one archive.
  abbrev pub NamesContent : Type 0
  NamesContent =
      (i j : ℕ) (t u : Target) → Sends i t → Sends j u → t.url ≡ u.url → t.content ≡ u.content

  pub Sends-url : (i : ℕ) (t : Target) → Sends i t → has_prefix (codes "nar/") t.url ≡ true
  Sends-url i t (d, b, m, a, c, u, v) =
      ap (has_prefix (codes "nar/")) u
      ∙ dump-url (w i) (info i).store_path (opts i).compression (opts i).create_listings d b

  -- At every moment while any number of uploads go on at the same time, each at some point of its
  -- own writes, a reader sees under the key of any of them the `.narinfo` file of the start, or one
  -- that one of the uploads wrote together with the archive to which it points, whose hash and size
  -- are those that the store had reported; or one of them may not overwrite and has found the file.
  -- The names of infos and listings differ and are not in the directory of archives, and two of the
  -- archives sent with the same name have the same content. What each upload reads is arbitrary.
  pub uploads-Whole :
      ((i : ℕ) → has_prefix (codes "nar/") (key_of i) ≡ false)
      → ((i : ℕ) → has_prefix (codes "nar/") (listing_of i) ≡ false)
      → ((i j : ℕ) → listing_of i ≢ key_of j)
      → NamesContent
      → (start : Store) (run : List (ℕ × Event)) (rest : ℕ → List Event)
      → ((i : ℕ) → (upload_store_path (w i) (info i) (opts i) []).1 ≡ own i run ++ rest i)
      → (k : ℕ)
      → (visible (events run) start (key_of k) ≡ start (key_of k))
        ⊎ (((i : ℕ) × (t : Target) × Sends i t
              × (key_of i ≡ key_of k)
              × (visible (events run) start (key_of k) ≡ some t.text)
              × (visible (events run) start t.url ≡ some t.content))
            ⊎ ((i : ℕ) × Finds i × (key_of i ≡ key_of k)))
  uploads-Whole kn ln lk same_content start run rest h k =
      elim (Good-run key_of listing_of Sends Finds
        (λ i j t s. apart_of_prefix (key_of i) t.url (kn i) (Sends-url j t s))
        (λ i j t s. apart_of_prefix (listing_of i) t.url (ln i) (Sends-url j t s)) lk same_content
        start k run rest start (λ i. ahead (rw (← h i) (upload-Writes (w i) (info i) (opts i))))
        (unchanged refl)) [
          | unchanged q ↦ inl q
          | whole i t s y x see ↦ inr (inl (i, t, s, y, x, see))
          | with_found i f y ↦ inr (inr (i, f, y))
        ]
