-- ===== src/Tests/Together.antt =====
-- Two uploads at the same time.
use nixcached.Prelude.{
  ℕ, suc, ◌+◌, ◌≡◌, refl, sym, ap, ◌∙◌, arith, true, List, [], ◌∷◌, ◌++◌, Option, none, some, ◌⊎◌,
  take, Bytes, codes, same, has_prefix,
}
use nixcached.Upload.{
  NarInfo, Event, put, not_found, World, UploadOptions, Dumped, dump, upload_store_path,
  check_upload_overwrite, upload_unchecked, finish_upload, publish, write_nar_info, write_listing,
  succeeded,
}
use nixcached.Compression.{compression_extension, compression_mime_type}
use nixcached.Upload.Bucket.{visible}
use nixcached.Upload.Concurrent.{Target, own, events}
use nixcached.Upload.Together.{Sends, Finds, uploads-Whole}
use nixcached.Upload.CacheInfo.{ensure_cache_info, create_cache_info, remote_dir}
use nixcached.Upload.Arrive.{uploads_arrive}
use nixcached.Upload.Kept.{prepare-Kept}
use nixcached.Intake.Setup.{Opener, ready, prepare}
use nixcached.Tests.Bucket.{world, new_bucket, reported, plain_options, empty_bucket}

abbrev shared_world : World ℕ Bytes
shared_world = record (world not_found) { digest = λ p. take 2 p }

abbrev worlds : ℕ → World ℕ Bytes
worlds i = shared_world

-- The first object is `ab-x`, the second `bb-x`, and so on.
abbrev objects : ℕ → NarInfo
objects i = record reported { store_path = (97 + i) ∷ codes "b-x" }

abbrev all_options : ℕ → UploadOptions
all_options i = plain_options

abbrev writes_of : ℕ → List Event
writes_of i = (upload_store_path shared_world (objects i) plain_options []).1

abbrev sent_content : Event
sent_content = put (codes "nar/zNAR.nar.gz") (codes "zNAR") (codes "application/gzip") true

abbrev sent_listing : ℕ → Event
sent_listing i = put ((97 + i) ∷ codes "b.ls") (codes "NAR") (codes "application/json") true

abbrev sent_info : ℕ → Event
sent_info i =
    put ((97 + i) ∷ codes "b.narinfo") (codes "nar/zNAR.nar.gzNAR") (codes "text/x-nix-narinfo")
      true

-- The first upload is through, the second has sent its archive.
abbrev so_far : List (ℕ × Event)
so_far = (0, sent_content) ∷ (1, sent_content) ∷ (0, sent_listing 0) ∷ (0, sent_info 0) ∷ []

abbrev still : ℕ → List Event
still ℕ.zero = []
still (suc ℕ.zero) = sent_listing 1 ∷ sent_info 1 ∷ []
still (suc (suc i)) = writes_of (suc (suc i))

so_far-later : (i : ℕ) → own (suc (suc i)) so_far ≡ []
unfolding own
so_far-later i = ground arith

so_far-own : (i : ℕ) → writes_of i ≡ own i so_far ++ still i
unfolding own upload_store_path check_upload_overwrite upload_unchecked dump finish_upload same
    publish write_nar_info write_listing compression_extension compression_mime_type succeeded
so_far-own ℕ.zero = refl
so_far-own (suc ℕ.zero) = refl
so_far-own (suc (suc i)) = ap (λ es. es ++ writes_of (suc (suc i))) (sym (so_far-later i))

content_or_empty : Option (Dumped Bytes) → Bytes
content_or_empty none = []
content_or_empty (some d) = d.content

sent : (i : ℕ) (t : Target) → Sends worlds objects all_options i t → t.content ≡ codes "zNAR"
unfolding dump content_or_empty compression_extension
sent i t (d, b, m, a, c, u, v) = v ∙ ap content_or_empty (sym b)

uploads-Whole_example :
    (visible (events so_far) empty_bucket (codes "ab.narinfo") ≡ none)
    ⊎ (((i : ℕ) × (t : Target) × Sends worlds objects all_options i t
          × ((97 + i) ∷ codes "b.narinfo" ≡ codes "ab.narinfo")
          × (visible (events so_far) empty_bucket (codes "ab.narinfo") ≡ some t.text)
          × (visible (events so_far) empty_bucket t.url ≡ some t.content))
        ⊎ ((i : ℕ) × Finds worlds objects all_options i
            × ((97 + i) ∷ codes "b.narinfo" ≡ codes "ab.narinfo")))
unfolding has_prefix
uploads-Whole_example =
    uploads-Whole worlds objects all_options (λ i. ground arith) (λ i. ground arith) (λ i j e. cc e)
      (λ i j t u s r q. sent i t s ∙ sym (sent j u r)) empty_bucket so_far still so_far-own 0

abbrev any_opener : Opener ℕ
any_opener = record { new_bucket_url_opener = none; open_bucket = λ url. none }

abbrev info_write : Event
info_write =
    put (codes "nix-cache-info") (codes "StoreDir: /nix/store") (codes "text/x-nix-cache-info") true

prepared :
    prepare any_opener new_bucket (codes "mem://") (codes "/nix/store") ≡ ready (info_write ∷ [])
unfolding prepare ensure_cache_info create_cache_info
prepared = refl

prepare-Kept_example :
    (text : Bytes) × (visible (info_write ∷ events so_far) empty_bucket (codes "nix-cache-info")
      ≡ some text)
    × ((some (codes "StoreDir: /nix/store") ≡ some text)
        ⊎ ((remote : Bytes) × (none ≡ some remote)
            × (remote_dir new_bucket remote ≡ codes "/nix/store")))
unfolding has_prefix
prepare-Kept_example =
    prepare-Kept any_opener new_bucket (codes "mem://") (codes "/nix/store") (info_write ∷ [])
      empty_bucket worlds objects all_options prepared (λ text e. cc e) refl (λ i e. cc e)
      (λ i e. cc e) so_far still so_far-own

no_error : (upload_store_path shared_world (objects 0) plain_options []).0 ≡ none
unfolding upload_store_path check_upload_overwrite upload_unchecked dump finish_upload same publish
    write_nar_info compression_extension
no_error = refl

uploads_arrive_example :
    ((i : ℕ) × (t : Target) × Sends worlds objects all_options i t
      × ((97 + i) ∷ codes "b.narinfo" ≡ codes "ab.narinfo")
      × (visible (events so_far) empty_bucket (codes "ab.narinfo") ≡ some t.text)
      × (visible (events so_far) empty_bucket t.url ≡ some t.content))
    ⊎ ((i : ℕ) × Finds worlds objects all_options i
        × ((97 + i) ∷ codes "b.narinfo" ≡ codes "ab.narinfo"))
unfolding has_prefix
uploads_arrive_example =
    uploads_arrive worlds objects all_options (λ i. ground arith) (λ i. ground arith)
      (λ i j e. cc e) (λ i j t u s r q. sent i t s ∙ sym (sent j u r)) empty_bucket so_far still
      so_far-own 0 refl no_error refl
