-- ===== src/Upload/Arrive.antt =====
-- Uploads that go on at the same time and return no error leave their objects in the bucket.
use nixcached.Prelude.{
  ℕ, ◌≡◌, ◌≢◌, refl, sym, ap, ◌∙◌, true, false, List, [], ◌∷◌, ◌++◌, append-nil, Option, none, some,
  Option-cases, Bool-cases, ◌⊎◌, inl, inr, ◌==◌, ◌&&◌, Bytes, codes, same, has_prefix,
}
use nixcached.Upload.{
  NarInfo, Event, put, World, UploadOptions, UploadError, exists, Dumped, succeeded, write_nar_info,
  publish, upload_unchecked, check_upload_overwrite, upload_store_path, nar_info_key,
}
use nixcached.Upload.Bucket.{Store, apply_event, visible, apply_event-same}
use nixcached.Upload.Trace.{
  content_mime, publish-ok, publish-failed, finish_upload_rule, upload_unchecked_rule,
}
use nixcached.Upload.Publish.{upload_rule}
use nixcached.Upload.Concurrent.{Target, own, events}
use nixcached.Upload.Together.{
  exists_found, Sends, Finds, NamesContent, key_of, listing_of, uploads-Whole,
}

-- A write to a key that had no error is among these.
abbrev Puts : Bytes → List Event → Type 0
Puts key [] = ⊥
Puts key (put k content mime ok ∷ es) = ((k ≡ key) × (ok ≡ true)) ⊎ Puts key es

Puts-last : (key text mime : Bytes) (es : List Event) → Puts key (es ++ put key text mime true ∷ [])
Puts-last key text mime [] = inl (refl, refl)
Puts-last key text mime (put k c m ok ∷ es) = inr (Puts-last key text mime es)

Puts-own :
    (key : Bytes) (i : ℕ) (run : List (ℕ × Event)) → Puts key (own i run) → Puts key (events run)
unfolding own
Puts-own key i [] h = h
Puts-own key i ((j, put k c m ok) ∷ run) h = elim (Bool-cases (j == i)) [
  | inl e ↦ elim (rw e at h) [ inl p ↦ inl p | inr p ↦ inr (Puts-own key i run p) ]
  | inr e ↦ inr (Puts-own key i run (rw e at h))
]

-- Nothing is taken out of the bucket.
abbrev Shows : Bytes → Store → Type 0
Shows key s = (text : Bytes) × (s key ≡ some text)

Shows-apply : (key : Bytes) (e : Event) (s : Store) → Shows key s → Shows key (apply_event e s)
unfolding apply_event
Shows-apply key (put k c m ok) s (t, h) = elim (Bool-cases (ok && same k key)) [
  | inl e ↦ (c, rw e refl)
  | inr e ↦ (t, rw e h)
]

Shows-visible : (key : Bytes) (es : List Event) (s : Store) → Shows key s → Shows key (visible es s)
unfolding visible
Shows-visible key [] s h = h
Shows-visible key (e ∷ es) s h = Shows-visible key es (apply_event e s) (Shows-apply key e s h)

Puts-Shows : (key : Bytes) (es : List Event) (s : Store) → Puts key es → Shows key (visible es s)
unfolding visible
Puts-Shows key [] s h = elim h [ ]
Puts-Shows key (put k c m ok ∷ es) s (inl (e, o)) =
    Shows-visible key es (apply_event (put k c m ok) s) (
      c,
      ap (λ x. apply_event (put k c m ok) s x) (sym e)
          ∙ ap (λ b. apply_event (put k c m b) s k) o
          ∙ apply_event-same k c m s,
    )
Puts-Shows key (put k c m ok ∷ es) s (inr p) = Puts-Shows key es (apply_event (put k c m ok) s) p

module _ {E L : Type 0} (w : World E L) where
  -- A result without an error comes with the write of the info.
  abbrev Sent : Bytes → Option (UploadError E) × List Event → Type 0
  Sent key r = r.0 ≡ none → Puts key r.1

  write_nar_info-Sent : (key text : Bytes) (h : List Event) → Sent key (write_nar_info w key text h)
  unfolding write_nar_info succeeded
  write_nar_info-Sent key text h e =
      elim (Option-cases (w.write_all h key text w.nar_info_mime_type)) [
        | inl o ↦ rw o (Puts-last key text w.nar_info_mime_type h)
        | inr (x, o) ↦ cc (rw o at e)
      ]

  publish-Sent :
      (d : Dumped L) (info : NarInfo) (key text : Bytes) (h : List Event)
      → Sent key (publish w d info key text h)
  publish-Sent d info key text h =
      elim (Option-cases (w.write_all h d.info.url d.content (content_mime w d))) [
        | inl o ↦ rw (publish-ok w d info key text h o) (write_nar_info-Sent key text _)
        | inr (x, o) ↦ rw (publish-failed w d info key text h x o) (λ e. cc e)
      ]

  upload_unchecked-Sent :
      (info : NarInfo) (opts : UploadOptions) (key : Bytes) (h : List Event)
      → Sent key (upload_unchecked w info opts key h)
  upload_unchecked-Sent info opts key h =
      upload_unchecked_rule w (Sent key) info opts key h (λ e t q. cc q) (λ b q. cc q)
        (λ d b.
          finish_upload_rule w (Sent key) d info key h (λ a q. cc q) (λ a q. cc q) (λ a q. cc q)
            (λ e a q. cc q) (λ text a c m. publish-Sent d info key text h))

  upload-Sent :
      (info : NarInfo) (opts : UploadOptions)
      → (upload_store_path w info opts []).0 ≡ none
      → Puts (nar_info_key w info) (upload_store_path w info opts []).1
        ⊎ ((opts.overwrite ≡ false)
            × ((check_upload_overwrite w (nar_info_key w info) info []).0 ≡ exists))
  upload-Sent info opts =
      upload_rule w
        (λ r.
          r.0 ≡ none
          → Puts (nar_info_key w info) r.1
            ⊎ ((opts.overwrite ≡ false)
                × ((check_upload_overwrite w (nar_info_key w info) info []).0 ≡ exists)))
        info opts [] (λ q. inl (upload_unchecked-Sent info opts (nar_info_key w info) [] q))
        (λ o c q. inr (o, c)) (λ e o r q. cc q)

module _ {E L : Type 0} (w : ℕ → World E L) (info : ℕ → NarInfo) (opts : ℕ → UploadOptions) where
  -- Where any number of uploads go on at the same time and one of an object that was not in the
  -- bucket has returned without an error, a reader sees under its key, from then on, a `.narinfo`
  -- file that one of the uploads wrote together with the archive to which it points, whose hash and
  -- size are those that the store had reported; or an upload of the same key that may not overwrite
  -- has found the file. The names of infos and listings differ and are not in the directory of
  -- archives, and two of the archives sent with the same name have the same content.
  pub uploads_arrive :
      ((i : ℕ) → has_prefix (codes "nar/") (key_of w info opts i) ≡ false)
      → ((i : ℕ) → has_prefix (codes "nar/") (listing_of w info opts i) ≡ false)
      → ((i j : ℕ) → listing_of w info opts i ≢ key_of w info opts j)
      → NamesContent w info opts
      → (start : Store) (run : List (ℕ × Event)) (rest : ℕ → List Event)
      → ((i : ℕ) → (upload_store_path (w i) (info i) (opts i) []).1 ≡ own i run ++ rest i)
      → (k : ℕ) → rest k ≡ []
      → (upload_store_path (w k) (info k) (opts k) []).0 ≡ none
      → start (key_of w info opts k) ≡ none
      → ((i : ℕ) × (t : Target) × Sends w info opts i t
          × (key_of w info opts i ≡ key_of w info opts k)
          × (visible (events run) start (key_of w info opts k) ≡ some t.text)
          × (visible (events run) start t.url ≡ some t.content))
        ⊎ ((i : ℕ) × Finds w info opts i × (key_of w info opts i ≡ key_of w info opts k))
  uploads_arrive kn ln lk same_content start run rest h k r ok absent =
      elim (uploads-Whole w info opts kn ln lk same_content start run rest h k) [
        | inr x ↦ x
        | inl q ↦ elim (upload-Sent (w k) (info k) (opts k) ok) [
          | inr (o, c) ↦
              let (text, f) = exists_found (w k) (key_of w info opts k) (info k) c in
              inr (k, (text, o, f), refl)
          | inl p ↦
              let own_all : (upload_store_path (w k) (info k) (opts k) []).1 ≡ own k run =
                h k ∙ ap (λ es. own k run ++ es) r ∙ append-nil (own k run) in
              let (text, v) =
                Puts-Shows (key_of w info opts k) (events run) start
                  (Puts-own (key_of w info opts k) k run (rw own_all at p)) in
              let no : none ≡ some text = sym absent ∙ sym q ∙ v in cc no
        ]
      ]
