-- ===== src/Upload/Trace.antt =====
-- Which writes an upload makes, on every path through `uploadStorePath`.
use nixcached.Prelude.{
  ◌≡◌, refl, sym, ap, ◌∙◌, Bool, true, false, List, [], ◌∷◌, ◌++◌, Option, none, some, append-nil,
  append_assoc, ◌==◌, Bytes, same, ◌⊎◌, inl, inr, Bool-cases, Option-cases,
}
use nixcached.Compression.{compression_mime_type}
use nixcached.Upload.{
  NarInfo, Event, put, ReadResult, found, not_found, read_failed, World, UploadOptions, UploadError,
  write_failed, hash_mismatch, size_mismatch, marshal_failed, seek_failed, temp_file, dump_failed,
  Dumped, succeeded, written, dump, write_listing, write_nar_info, publish, finish_upload,
  upload_unchecked, published_info,
}

-- The writes `es` of one upload: none, the content alone and in vain, or the content, perhaps the
-- listing, and then the info.
pub data Emits (url content listing_key key text : Bytes) (es : List Event) : Type 0 where
  nothing : es ≡ [] → Emits url content listing_key key text es
  content_failed :
      (mime : Bytes)
      → es ≡ put url content mime false ∷ []
      → Emits url content listing_key key text es
  without_listing :
      (mime m : Bytes) (ok : Bool)
      → es ≡ put url content mime true ∷ put key text m ok ∷ []
      → Emits url content listing_key key text es
  with_listing :
      (mime l lm m : Bytes) (lok ok : Bool)
      → es ≡ put url content mime true ∷ put listing_key l lm lok ∷ put key text m ok ∷ []
      → Emits url content listing_key key text es

pub ReadResult-cases :
    {E : Type 0} (r : ReadResult E)
    → (r ≡ not_found) ⊎ (((e : E) × (r ≡ read_failed e)) ⊎ ((t : Bytes) × (r ≡ found t)))
ReadResult-cases not_found = inl refl
ReadResult-cases (read_failed e) = inr (inl (e, refl))
ReadResult-cases (found t) = inr (inr (t, refl))

module _ {E L : Type 0} (w : World E L) where
  abbrev pub listing_key : NarInfo → Bytes
  listing_key info = w.digest info.store_path ++ w.listing_extension

  abbrev pub content_mime : Dumped L → Bytes
  content_mime d = compression_mime_type w.nar_mime_type d.info.compression

  pub publish-ok :
      (d : Dumped L) (info : NarInfo) (key text : Bytes) (h : List Event)
      → w.write_all h d.info.url d.content (content_mime d) ≡ none
      → publish w d info key text h
        ≡ write_nar_info w key text (
            write_listing w info.store_path d.listing
              (h ++ put d.info.url d.content (content_mime d) true ∷ []))
  unfolding publish succeeded
  publish-ok d info key text h o = rw (o, publish) (rw o refl)

  pub publish-failed :
      (d : Dumped L) (info : NarInfo) (key text : Bytes) (h : List Event) (e : E)
      → w.write_all h d.info.url d.content (content_mime d) ≡ some e
      → publish w d info key text h
        ≡ (some (write_failed e), h ++ put d.info.url d.content (content_mime d) false ∷ [])
  unfolding publish succeeded
  publish-failed d info key text h e o = rw (o, publish) (rw o refl)

  pub write_listing-cases :
      (info : NarInfo) (ls : Option L) (h : List Event)
      → (write_listing w info.store_path ls h ≡ h)
        ⊎ ((l lm : Bytes) × (ok : Bool) × (write_listing w info.store_path ls h
              ≡ h ++ put (listing_key info) l lm ok ∷ []))
  unfolding write_listing
  write_listing-cases info none h = inl refl
  write_listing-cases info (some ls) h = elim (Option-cases (w.marshal_listing ls)) [
    | inl o ↦ inl (rw (o, write_listing))
    | inr (text, o) ↦ inr (
      text,
      w.listing_mime_type,
      succeeded (w.write_all h (listing_key info) text w.listing_mime_type),
      rw (o, write_listing),
    )
  ]

  written-write_nar_info :
      (key text : Bytes) (h : List Event)
      → (write_nar_info w key text h).1 ≡ written w h key text w.nar_info_mime_type
  unfolding write_nar_info
  written-write_nar_info key text h = refl

  -- What `publish` adds to the writes before it.
  pub publish-Emits :
      (d : Dumped L) (info : NarInfo) (key text : Bytes) (h : List Event)
      → (es : List Event) × ((publish w d info key text h).1 ≡ h ++ es)
        × Emits d.info.url d.content (listing_key info) key text es
  publish-Emits d info key text h =
      elim (Option-cases (w.write_all h d.info.url d.content (content_mime d))) [
        | inr (e, o) ↦ (
          put d.info.url d.content (content_mime d) false ∷ [],
          ap (λ (r : Option (UploadError E) × List Event). r.1)
              (publish-failed d info key text h e o),
          content_failed (content_mime d) refl,
        )
        | inl o ↦ elim (write_listing-cases info d.listing h') [
          | inl e ↦ (
            put d.info.url d.content (content_mime d) true
                ∷ put key text w.nar_info_mime_type (last h')
                ∷ [],
            after h' e o ∙ append_assoc h _ _,
            without_listing (content_mime d) w.nar_info_mime_type (last h') refl,
          )
          | inr (l, lm, ok, e) ↦ (
            put d.info.url d.content (content_mime d) true
                ∷ put (listing_key info) l lm ok
                ∷ put key text w.nar_info_mime_type
                    (last (h' ++ put (listing_key info) l lm ok ∷ []))
                ∷ [],
            after (h' ++ put (listing_key info) l lm ok ∷ []) e o
                ∙ append_assoc h' _ _
                ∙ append_assoc h _ _,
            with_listing (content_mime d) l lm w.nar_info_mime_type ok _ refl,
          )
        ]
      ]
    where
      h' : List Event
      h' = h ++ put d.info.url d.content (content_mime d) true ∷ []

      last : List Event → Bool
      last g = succeeded (w.write_all g key text w.nar_info_mime_type)

      after :
          (g : List Event)
          → write_listing w info.store_path d.listing h' ≡ g
          → w.write_all h d.info.url d.content (content_mime d) ≡ none
          → (publish w d info key text h).1 ≡ g ++ put key text w.nar_info_mime_type (last g) ∷ []
      after g e o =
          ap (λ (r : Option (UploadError E) × List Event). r.1)
            (publish-ok d info key text h o ∙ ap (write_nar_info w key text) e)
          ∙ written-write_nar_info key text g

  -- The ways through `finish_upload`.
  pub finish_upload_rule {κ} :
      (P : Option (UploadError E) × List Event → Type κ) (d : Dumped L) (info : NarInfo)
      (key : Bytes) (h : List Event)
      → (same d.info.nar_hash info.nar_hash ≡ false → P (some hash_mismatch, h))
      → (d.info.nar_size == info.nar_size ≡ false → P (some size_mismatch, h))
      → (w.marshal_text (published_info w info d.info) ≡ none → P (some marshal_failed, h))
      → ((e : E) → w.seek_start ≡ some e → P (some (seek_failed e), h))
      → ((text : Bytes)
          → same d.info.nar_hash info.nar_hash ≡ true
          → d.info.nar_size == info.nar_size ≡ true
          → w.marshal_text (published_info w info d.info) ≡ some text
          → P (publish w d info key text h))
      → P (finish_upload w d info key h)
  unfolding finish_upload
  finish_upload_rule P d info key h hash size text seek go =
      elim (Bool-cases (same d.info.nar_hash info.nar_hash)) [
        | inr a ↦ rw a (hash a)
        | inl a ↦ elim (Bool-cases (d.info.nar_size == info.nar_size)) [
          | inr b ↦ rw (a, b) (size b)
          | inl b ↦ elim (Option-cases (w.marshal_text (published_info w info d.info))) [
            | inl c ↦ rw (a, b, c) (text c)
            | inr (t, c) ↦ elim (Option-cases w.seek_start) [
              | inr (e, s) ↦ rw (a, b, c, s) (seek e s)
              | inl s ↦ rw (a, b, c, s) (go t a b c)
            ]
          ]
        ]
      ]

  pub upload_unchecked_rule {κ} :
      (P : Option (UploadError E) × List Event → Type κ) (info : NarInfo) (opts : UploadOptions)
      (key : Bytes) (h : List Event)
      → ((e : E) → w.create_temp ≡ some e → P (some (temp_file e), h))
      → (dump w info.store_path opts.compression opts.create_listings ≡ none
          → P (some dump_failed, h))
      → ((d : Dumped L)
          → dump w info.store_path opts.compression opts.create_listings ≡ some d
          → P (finish_upload w d info key h))
      → P (upload_unchecked w info opts key h)
  unfolding upload_unchecked
  upload_unchecked_rule P info opts key h temp bad go = elim (Option-cases w.create_temp) [
    | inr (e, t) ↦ rw (t, upload_unchecked) (temp e t)
    | inl t ↦ elim (Option-cases (dump w info.store_path opts.compression opts.create_listings)) [
      | inl b ↦ rw (t, upload_unchecked, b) (bad b)
      | inr (d, b) ↦ rw (t, upload_unchecked, b) (go d b)
    ]
  ]

  -- The writes behind `h`, of which there are none, or those of one dump.
  abbrev pub Uploads : NarInfo → UploadOptions → Bytes → List Event → List Event → Type 0
  Uploads info opts key h all =
      (es : List Event) × (all ≡ h ++ es)
      × ((es ≡ [])
          ⊎ ((d : Dumped L) × (text : Bytes) × (dump w info.store_path opts.compression
                  opts.create_listings
                ≡ some d)
              × (w.marshal_text (published_info w info d.info) ≡ some text)
              × (same d.info.nar_hash info.nar_hash ≡ true)
              × (d.info.nar_size == info.nar_size ≡ true)
              × Emits d.info.url d.content (listing_key info) key text es))

  pub upload_unchecked-Uploads :
      (info : NarInfo) (opts : UploadOptions) (key : Bytes) (h : List Event)
      → Uploads info opts key h (upload_unchecked w info opts key h).1
  upload_unchecked-Uploads info opts key h =
      upload_unchecked_rule P info opts key h (λ e t. quiet) (λ b. quiet)
        (λ d b.
          finish_upload_rule P d info key h (λ a. quiet) (λ a. quiet) (λ a. quiet) (λ e a. quiet)
            (λ text a c m.
              let (es, e, em) = publish-Emits d info key text h in
              (es, e, inr (d, text, b, m, a, c, em))))
    where
      P : Option (UploadError E) × List Event → Type 0
      P r = Uploads info opts key h r.1

      quiet : Uploads info opts key h h
      quiet = ([], sym (append-nil h), inl refl)
