-- ===== src/Upload/Success.antt =====
-- An upload in which nothing fails.
use nixcached.Prelude.{
  ◌≡◌, ◌≢◌, refl, sym, ap, ◌∙◌, true, false, List, [], ◌∷◌, ◌++◌, Option, none, some, ◌==◌, Bytes,
  codes, same, has_prefix, ◌⊎◌, inl, inr, if_rule, some_inj,
}
use nixcached.Upload.{
  NarInfo, Event, put, not_found, World, UploadOptions, UploadError, absent, Dumped, succeeded,
  written, dump, published_info, publish, write_listing, write_nar_info, upload_unchecked,
  check_upload_overwrite, proceed, upload_store_path, nar_info_key,
}
use nixcached.Upload.Bucket.{Store, visible, visible-snoc, apply_event-other, apply_event-same}
use nixcached.Upload.Trace.{
  listing_key, content_mime, publish-ok, write_listing-cases, upload_unchecked_rule,
  finish_upload_rule,
}
use nixcached.Upload.Publish.{apart_of_prefix, dump-url}

module _ {E L : Type 0} (w : World E L)
    (fine : (h : List Event) (key content mime : Bytes)
      → w.write_all h key content mime ≡ none) where
  abbrev IsPublished :
      Dumped L → Bytes → Bytes → Store → Option (UploadError E) × List Event → Type 0
  IsPublished d key text start r =
      (r.0 ≡ none)
      × (visible r.1 start key ≡ some text)
      × (visible r.1 start d.info.url ≡ some d.content)

  written-fine :
      (h : List Event) (key content mime : Bytes)
      → written w h key content mime ≡ h ++ put key content mime true ∷ []
  written-fine h key content mime = rw (fine h key content mime) (unfold succeeded in refl)

  write_nar_info-eq :
      (key text : Bytes) (g : List Event)
      → write_nar_info w key text g ≡ (none, g ++ put key text w.nar_info_mime_type true ∷ [])
  unfolding write_nar_info succeeded
  write_nar_info-eq key text g = rw (fine g key text w.nar_info_mime_type) refl

  -- The info is written where the content is visible.
  write_nar_info-IsPublished :
      (d : Dumped L) (key text : Bytes) (g : List Event) (start : Store)
      → key ≢ d.info.url
      → visible g start d.info.url ≡ some d.content
      → IsPublished d key text start (write_nar_info w key text g)
  write_nar_info-IsPublished d key text g start away u = rw write_nar_info-eq (
    refl,
    rw visible-snoc (apply_event-same key text w.nar_info_mime_type (visible g start)),
    rw visible-snoc
        (apply_event-other key text w.nar_info_mime_type _ true (visible g start) away ∙ u),
  )

  publish-IsPublished :
      (d : Dumped L) (info : NarInfo) (key text : Bytes) (h : List Event) (start : Store)
      → key ≢ d.info.url
      → listing_key w info ≢ d.info.url
      → IsPublished d key text start (publish w d info key text h)
  publish-IsPublished d info key text h start away listing_away =
      rw (publish-ok w d info key text h (fine h d.info.url d.content (content_mime w d)))
        (write_nar_info-IsPublished d key text _ start away there)
    where
      h' : List Event
      h' = h ++ put d.info.url d.content (content_mime w d) true ∷ []

      here : visible h' start d.info.url ≡ some d.content
      here =
          rw visible-snoc
            (apply_event-same d.info.url d.content (content_mime w d) (visible h start))

      there :
          visible (write_listing w info.store_path d.listing h') start d.info.url ≡ some d.content
      there = elim (write_listing-cases w info d.listing h') [
        | inl e ↦ rw e here
        | inr (l, lm, ok, e) ↦
            rw (e, visible-snoc)
              (apply_event-other (listing_key w info) l lm d.info.url ok (visible h' start)
                  listing_away
                ∙ here)
      ]

  starts :
      (info : NarInfo) (opts : UploadOptions) (h : List Event)
      → (opts.overwrite ≡ true) ⊎ (w.read_all h (nar_info_key w info) ≡ not_found)
      → upload_store_path w info opts h ≡ upload_unchecked w info opts (nar_info_key w info) h
  unfolding upload_store_path proceed
  starts info opts h (inl o) = if_rule (λ r. r ≡ go) opts.overwrite _ _ (λ n. refl) (λ n. cc)
    where
      go : Option (UploadError E) × List Event
      go = upload_unchecked w info opts (nar_info_key w info) h
  starts info opts h (inr r) =
      if_rule (λ g. g ≡ upload_unchecked w info opts (nar_info_key w info) h) opts.overwrite _ _
        (λ n. refl) (λ n. ap (proceed w info opts) check_absent)
    where
      check_absent : check_upload_overwrite w (nar_info_key w info) info h ≡ (absent, h)
      check_absent = unfold check_upload_overwrite in rw (r, check_upload_overwrite)

  -- If nothing fails, and the archive has the hash and the size that the store had reported, an
  -- upload that is forced or finds no `.narinfo` file returns no error. A reader of the bucket then
  -- sees the new `.narinfo` file, and under the URL in it the compressed archive.
  pub upload_store_path_complete :
      (d : Dumped L) (info : NarInfo) (opts : UploadOptions) (text : Bytes) (h : List Event)
      (start : Store)
      → w.create_temp ≡ none
      → w.seek_start ≡ none
      → dump w info.store_path opts.compression opts.create_listings ≡ some d
      → same d.info.nar_hash info.nar_hash ≡ true
      → d.info.nar_size == info.nar_size ≡ true
      → w.marshal_text (published_info w info d.info) ≡ some text
      → (opts.overwrite ≡ true) ⊎ (w.read_all h (nar_info_key w info) ≡ not_found)
      → has_prefix (codes "nar/") (nar_info_key w info) ≡ false
      → has_prefix (codes "nar/") (listing_key w info) ≡ false
      → ((upload_store_path w info opts h).0 ≡ none)
        × (visible (upload_store_path w info opts h).1 start (nar_info_key w info) ≡ some text)
        × (visible (upload_store_path w info opts h).1 start d.info.url ≡ some d.content)
  upload_store_path_complete d info opts text h start t s o a b m c kn ln =
      let key = nar_info_key w info in
      let u = dump-url w info.store_path opts.compression opts.create_listings d o in
      rw (starts info opts h c) (
        upload_unchecked_rule w (IsPublished d key text start) info opts key h (λ e f. cc) (λ f. cc)
          (λ d' o'.
            let e : d' ≡ d = some_inj (sym o' ∙ o) in
            rw e (
              finish_upload_rule w (IsPublished d key text start) d info key h (λ f. cc) (λ f. cc)
                (λ f. cc) (λ x f. cc)
                (λ text' a' b' m'.
                  let g : text' ≡ text = some_inj (sym m' ∙ m) in
                  rw g (
                    publish-IsPublished d info key text h start (apart_of_prefix _ _ kn u)
                      (apart_of_prefix _ _ ln u))))))
