-- ===== src/Upload/Overwrite.antt =====
-- An upload that finds a `.narinfo` file in the bucket and may not replace it.
use nixcached.Prelude.{
  ℕ, ◌<◌, ◌≡◌, refl, Bool, true, false, ◌||◌, not, List, Option, none, some, arith, leb, ◌==◌,
  if_rule, length, Bytes, same, ◌⊎◌, inl, inr, Option-cases,
}
use nixcached.Upload.{
  NarInfo, Event, found, World, UploadOptions, UploadError, exists, written, add_to_existing,
  check_upload_overwrite, proceed, upload_store_path, nar_info_key,
}

module _ {E L : Type 0} (w : World E L) where
  -- The one write that is made then: the old info with more signatures, if it describes the
  -- same archive.
  abbrev pub AddsSignatures : Bytes → NarInfo → Bytes → List Event → List Event → Type 0
  AddsSignatures key local text h all =
      (old : NarInfo) × (new_text : Bytes) × (w.unmarshal_text text ≡ some old)
      × (same old.nar_hash local.nar_hash ≡ true)
      × (old.nar_size == local.nar_size ≡ true)
      × (length old.sig < length (w.add_signatures old.sig local.sig))
      × (w.marshal_text (record old { sig = w.add_signatures old.sig local.sig }) ≡ some new_text)
      × (all ≡ written w h key new_text w.nar_info_mime_type)

  abbrev MayAdd : Bytes → NarInfo → Bytes → List Event → List Event → Type 0
  MayAdd key local text h all = (all ≡ h) ⊎ AddsSignatures key local text h all

  longer : (a b : ℕ) → leb a b ≡ false → b < a
  longer a b h = ground arith

  differs : (a b : Bool) → (not a || not b) ≡ false → (a ≡ true) × (b ≡ true)
  differs a b h = ground arith

  add_to_existing-MayAdd :
      (key : Bytes) (local old : NarInfo) (text : Bytes) (h : List Event)
      → w.unmarshal_text text ≡ some old
      → MayAdd key local text h (add_to_existing w key local old h)
  unfolding add_to_existing
  add_to_existing-MayAdd key local old text h u =
      if_rule P (not (same old.nar_hash local.nar_hash) || not (old.nar_size == local.nar_size)) _ _
        (λ d. inl refl)
        (λ d.
          if_rule P (leb (length (w.add_signatures old.sig local.sig)) (length old.sig)) _ _
            (λ l. inl refl)
            (λ l.
              elim (Option-cases
                (w.marshal_text (record old { sig = w.add_signatures old.sig local.sig }))) [
                  | inl m ↦ rw m (inl refl)
                  | inr (t, m) ↦
                      let (a, b) =
                        differs (same old.nar_hash local.nar_hash) (old.nar_size == local.nar_size)
                          d in
                      rw m (inr (old, t, u, a, b, longer _ _ l, m, refl))
                ]))
    where
      P : List Event → Type 0
      P all = MayAdd key local text h all

  check-found :
      (key : Bytes) (local : NarInfo) (text : Bytes) (h : List Event)
      → w.read_all h key ≡ found text
      → (all : List Event) × (check_upload_overwrite w key local h ≡ (exists, all))
        × MayAdd key local text h all
  check-found key local text h r = elim (Option-cases (w.unmarshal_text text)) [
    | inl u ↦ (h, unfold check_upload_overwrite in rw (r, check_upload_overwrite, u), inl refl)
    | inr (old, u) ↦ (
      add_to_existing w key local old h,
      unfold check_upload_overwrite in rw (r, check_upload_overwrite, u),
      add_to_existing-MayAdd key local old text h u,
    )
  ]

  -- Without `--force`, an upload that finds a `.narinfo` file returns no error, and writes nothing,
  -- or only that file: the old info, if it can be parsed and has the NAR hash and size of the
  -- local one, with its signatures replaced by the longer union, and else unchanged.
  pub upload_store_path-found :
      (info : NarInfo) (opts : UploadOptions) (text : Bytes) (h : List Event)
      → opts.overwrite ≡ false
      → w.read_all h (nar_info_key w info) ≡ found text
      → ((upload_store_path w info opts h).0 ≡ none)
        × (((upload_store_path w info opts h).1 ≡ h)
            ⊎ AddsSignatures (nar_info_key w info) info text h (upload_store_path w info opts h).1)
  unfolding upload_store_path proceed
  upload_store_path-found info opts text h o r =
      let (all, c, m) = check-found (nar_info_key w info) info text h r in
      if_rule P opts.overwrite _ _ (λ n. cc) (λ n. rw c (refl, m))
    where
      P : Option (UploadError E) × List Event → Type 0
      P r = (r.0 ≡ none) × MayAdd (nar_info_key w info) info text h r.1
