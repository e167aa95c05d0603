-- ===== src/Upload/Publish.antt =====
-- The branches of `uploadStorePath`, and what `dump` names its file.
use nixcached.Prelude.{
  ◌≡◌, ◌≢◌, refl, sym, ap, Bool, true, false, List, [], Option, none, some, append-nil, Bytes,
  codes, has_prefix, has_prefix-append, ◌⊎◌, inl, inr, Bool-cases, if_rule, Option-cases, some_inj,
}
use nixcached.Nix.{StorePath}
use nixcached.Compression.{Compression}
use nixcached.Upload.{
  NarInfo, Event, World, UploadOptions, UploadError, Check, absent, exists, check_failed,
  overwrite_check, Dumped, is_supported, dump, upload_unchecked, check_upload_overwrite,
  upload_store_path, nar_info_key,
}
use nixcached.Upload.Trace.{Uploads, upload_unchecked-Uploads, ReadResult-cases}
use nixcached.Upload.{add_to_existing, found, not_found, read_failed}

pub apart_of_prefix :
    (key url : Bytes)
    → has_prefix (codes "nar/") key ≡ false
    → has_prefix (codes "nar/") url ≡ true
    → key ≢ url
apart_of_prefix key url k u e = let t : has_prefix (codes "nar/") key ≡ true = rw e u in cc

module _ {E L : Type 0} (w : World E L) where
  pub upload_rule {κ} :
      (P : Option (UploadError E) × List Event → Type κ) (info : NarInfo) (opts : UploadOptions)
      (h : List Event)
      → (P (upload_unchecked w info opts (nar_info_key w info) h))
      → (opts.overwrite ≡ false
          → (check_upload_overwrite w (nar_info_key w info) info h).0 ≡ exists
          → P (none, (check_upload_overwrite w (nar_info_key w info) info h).1))
      → ((e : E)
          → opts.overwrite ≡ false
          → w.read_all h (nar_info_key w info) ≡ read_failed e
          → P (some (overwrite_check e), h))
      → P (upload_store_path w info opts h)
  unfolding upload_store_path
  upload_rule P info opts h go stay bad =
      if_rule P opts.overwrite _ _ (λ o. go)
        (λ o. elim (ReadResult-cases (w.read_all h (nar_info_key w info))) [
          | inl r ↦ rw (check_absent r) go
          | inr (inl (e, r)) ↦ rw (check_failed-eq e r) (bad e o r)
          | inr (inr (t, r)) ↦
              let (x, c) = check_found t r in
              let kept = stay o (ap (λ (p : Check E × List Event). p.0) c) in rw c (rw c at kept)
        ])
    where
      key : Bytes
      key = nar_info_key w info

      check_absent :
          w.read_all h key ≡ not_found → check_upload_overwrite w key info h ≡ (absent, h)
      check_absent r = unfold check_upload_overwrite in rw (r, check_upload_overwrite)

      check_failed-eq :
          (e : E)
          → w.read_all h key ≡ read_failed e
          → check_upload_overwrite w key info h ≡ (check_failed e, h)
      check_failed-eq e r = unfold check_upload_overwrite in rw (r, check_upload_overwrite)

      check_found :
          (t : Bytes)
          → w.read_all h key ≡ found t
          → (g : List Event) × (check_upload_overwrite w key info h ≡ (exists, g))
      check_found t r = elim (Option-cases (w.unmarshal_text t)) [
        | inl u ↦ (h, unfold check_upload_overwrite in rw (r, check_upload_overwrite, u))
        | inr (old, u) ↦ (
          add_to_existing w key info old h,
          unfold check_upload_overwrite in rw (r, check_upload_overwrite, u),
        )
      ]

  -- `dump` names the file after its content, in the directory of archives.
  pub dump-url :
      (path : StorePath) (ct : Compression) (listing : Bool) (d : Dumped L)
      → dump w path ct listing ≡ some d
      → has_prefix (codes "nar/") d.info.url ≡ true
  unfolding dump
  dump-url path ct listing d h = elim (Bool-cases (is_supported ct)) [
    | inr n ↦ let e : none ≡ some d = rw n at h in cc e
    | inl y ↦ elim (Option-cases (w.dump_path path)) [
      | inl o ↦ let e : none ≡ some d = rw (y, o) at h in cc e
      | inr (nar, o) ↦ elim (Option-cases (w.compress ct nar)) [
        | inl q ↦ let e : none ≡ some d = rw (y, o, q) at h in cc e
        | inr (content, q) ↦
            rw (← some_inj (rw (y, o, q) at h)) (has_prefix-append (codes "nar/") _)
      ]
    ]
  ]

  pub upload_store_path-Uploads :
      (info : NarInfo) (opts : UploadOptions) (h : List Event)
      → Uploads w info opts (nar_info_key w info) h (upload_store_path w info opts h).1
        ⊎ ((check_upload_overwrite w (nar_info_key w info) info h).0 ≡ exists)
  upload_store_path-Uploads info opts h =
      upload_rule
        (λ r.
          Uploads w info opts (nar_info_key w info) h r.1
          ⊎ ((check_upload_overwrite w (nar_info_key w info) info h).0 ≡ exists))
        info opts h (inl (upload_unchecked-Uploads w info opts (nar_info_key w info) h))
        (λ o c. inr c) (λ e o r. inl ([], sym (append-nil h), inl refl))
