-- ===== src/Entry.antt =====
-- What main.go does itself: the openers of buckets (`newBucketURLOpener`) and the status with which the
-- program ends. The libraries' schemes, credentials and clients are parameters.
use nixcached.Prelude.{
  ℕ, ◌≡◌, sym, ◌∙◌, ◌↔◌, List, [], ◌∷◌, Option, none, some, Option-cases, inl, inr, Bytes,
}

pub data GcsClient : Type 0 where
  anonymous : GcsClient
  with_credentials : GcsClient

pub data UrlOpener : Type 0 where
  file_opener : UrlOpener
  gcs_opener : GcsClient → UrlOpener
  s3_opener : UrlOpener

pub record Cloud (E : Type 0) : Type 0 where
  pub file_scheme : Bytes
  pub gcs_scheme : Bytes
  pub s3_scheme : Bytes
  -- the errors of `gcp.DefaultCredentials` and `gcp.NewHTTPClient`
  pub no_credentials : Option E
  pub no_client : Option E

-- The openers that were registered, by their schemes, or an error.
pub data UrlMux (E : Type 0) : Type 0 where
  mux : List (Bytes × UrlOpener) → UrlMux E
  mux_error : E → UrlMux E

module _ {E : Type 0} (c : Cloud E) where
  abbrev pub registered : GcsClient → UrlMux E
  registered client = mux (
      (c.file_scheme, file_opener)
      ∷ (c.gcs_scheme, gcs_opener client)
      ∷ (c.s3_scheme, s3_opener)
      ∷ [])

  unfoldable pub new_bucket_url_opener : UrlMux E
  new_bucket_url_opener = elim c.no_credentials [
    | some e ↦ registered anonymous
    | none ↦ elim c.no_client [ some e ↦ mux_error e | none ↦ registered with_credentials ]
  ]

-- What `runUpload` and `runServe` see of it.
abbrev pub opener_error : {E : Type 0} → UrlMux E → Option E
opener_error (mux openers) = none
opener_error (mux_error e) = some e

-- Credentials that are not found are no error: only a client for those that are found can make one.
opener_error_iff :
    {E : Type 0} (c : Cloud E) (e : E)
    → (opener_error (new_bucket_url_opener c) ≡ some e)
      ↔ ((c.no_credentials ≡ none) × (c.no_client ≡ some e))
unfolding new_bucket_url_opener
opener_error_iff c e = elim (Option-cases c.no_credentials) [
  | inr (d, h) ↦ (λ q. cc (rw h at q), λ q. cc (q.0))
  | inl h ↦ elim (Option-cases c.no_client) [
    | inl g ↦ (λ q. cc (rw (h, g) at q), λ q. cc (g, q.1))
    | inr (d, g) ↦ (λ q. (h, g ∙ rw (h, g) at q), λ q. rw (h, g) (sym g ∙ q.1))
  ]
]

-- The status of the program, from the error of the command.
unfoldable pub exit_status : {E : Type 0} → Option E → ℕ
exit_status none = 0
exit_status (some e) = 1
