-- ===== src/Upload/Packs.antt =====
-- What comes into the file, and to the lister, when the chunks of an archive go through the writers of `dump`.
use nixcached.Prelude.{
  ℕ, ◌==◌, length, if_rule, ◌≡◌, refl, sym, ap, ◌∙◌, List, [], ◌∷◌, ◌++◌, append-nil, append_assoc,
  Option, none, some, some_inj, Option-cases, inl, inr, take, concat, Bytes,
}
use nixcached.Upload.Stream.{
  Write, HashWriter, new_hash_writer, hash_write, Compressor, nop_write_closer, returns, Lister,
  pass_on, send_chunks, StreamWorld, CompressedWriter, compressed_write,
}
use nixcached.Upload.Writers.{IsWriter, Outcome-cases, take_all}
use nixcached.Upload.Pipe.{feed_all}

-- The state behind all of the chunks, where none of the writes has an error.
unfoldable pub write_chunks : {S E : Type 0} → Write S E → S → List Bytes → Option S
write_chunks write s [] = some s
write_chunks write s (p ∷ ps) = elim (write s p).1.1 [
  | none ↦ write_chunks write (write s p).0 ps
  | some e ↦ none
]

-- The state of a lister that was given all of the chunks, where there is a lister.
abbrev pub Fed :
    {L : Type 0} (lister : Lister L)
    → Option lister.State
    → List Bytes
    → Option lister.State
    → Type 0
Fed lister none ps l' = l' ≡ none
Fed lister (some l) ps l' = (k : lister.State) × (feed_all lister l ps ≡ some k) × (l' ≡ some k)

module _ {E C L : Type 0} (write : Write C E) (lister : Lister L) where
  -- What is passed on without an error also went to the lister.
  pass_on-Fed :
      (l : Option lister.State) (p : Bytes) (ps : List Bytes) (r : ℕ × Option E)
      (l₁ l' : Option lister.State)
      → pass_on write lister l p r ≡ returns l₁
      → Fed lister l₁ ps l'
      → (r.1 ≡ none) × Fed lister l (p ∷ ps) l'
  unfolding pass_on feed_all
  pass_on-Fed l p ps (n, some e) l₁ l' h f = cc h
  pass_on-Fed none p ps (n, none) none l' h f = (refl, f)
  pass_on-Fed none p ps (n, none) (some k) l' h f = cc h
  pass_on-Fed (some l) p ps (n, none) l₁ l' h f = (
    refl,
    elim (Option-cases (lister.feed l p)) [
      | inl o ↦
          if_rule (λ a. a ≡ returns l₁ → Fed lister (some l) (p ∷ ps) l') (n == length p) _ _
            (λ _ k. cc (rw o at k)) (λ _ k. cc k) h
      | inr (m, o) ↦
          if_rule (λ a. a ≡ returns l₁ → Fed lister (some l) (p ∷ ps) l') (n == length p) _ _
            (λ _ k.
              let q : l₁ ≡ some m = cc (rw o at k) in
              let (x, e, y) = rw q at f in (x, rw (feed_all, o) e, y))
            (λ _ k. cc k) h
    ],
  )

  -- All chunks went to the writer without an error, and to the lister where there is one.
  pub send_chunks-write_chunks :
      (l : Option lister.State) (w : HashWriter C) (ps : List Bytes) (l' : Option lister.State)
      (w' : HashWriter C)
      → send_chunks write lister l w ps ≡ returns (l', w')
      → (write_chunks write w.inner ps ≡ some w'.inner) × Fed lister l ps l'
  unfolding send_chunks write_chunks hash_write feed_all
  send_chunks-write_chunks none w [] l' w' h = (cc h, cc h)
  send_chunks-write_chunks (some l) w [] l' w' h = (cc h, (l, refl, cc h))
  send_chunks-write_chunks l w (p ∷ ps) l' w' h =
      elim (Outcome-cases (pass_on write lister l p (hash_write write w p).1)) [
        | inl o ↦ cc (rw (o, send_chunks) at h)
        | inr (inl o) ↦ cc (rw (o, send_chunks) at h)
        | inr (inr (l₁, o)) ↦
            let (all, f) =
              send_chunks-write_chunks l₁ (hash_write write w p).0 ps l' w'
                (rw (o, send_chunks) at h) in
            let (ok, g) = pass_on-Fed l p ps (hash_write write w p).1 l₁ l' o f in
            (rw (write_chunks, ok) all, g)
      ]

-- What is in an empty file after a compressor was opened on it, was given chunks without an error and was
-- closed without one is what `pack` makes of the chunks in a row.
pub record Packs {F E : Type 0} (content : F → Bytes)
    (compress : Compressor (HashWriter (HashWriter F)) E) (pack : Bytes → Option Bytes)
    : Type 0 where
  pub packed :
      (file : F) (ps : List Bytes) (opened c : compress.State)
      → content file ≡ []
      → compress.open_on (new_hash_writer (new_hash_writer file)) ≡ some opened
      → write_chunks compress.write opened ps ≡ some c
      → (compress.close c).1 ≡ none
      → pack (concat ps) ≡ some (content (compress.inner (compress.close c).0).inner.inner)

module _ {F E L : Type 0} (w : StreamWorld F E L) (content : F → Bytes)
    (file_law : IsWriter w.file_write)
    (takes : (f : F) (p : Bytes)
      → content (w.file_write f p).0 ≡ content f ++ take (w.file_write f p).1.0 p) where
  -- Without a compressor the chunks themselves come into the file.
  plain_chunks :
      (c c' : CompressedWriter w) (ps : List Bytes)
      → write_chunks (compressed_write w) c ps ≡ some c'
      → content c'.inner.inner ≡ content c.inner.inner ++ concat ps
  unfolding write_chunks hash_write
  plain_chunks c c' [] h =
      ap (λ k. content k.inner.inner) (sym (some_inj h)) ∙ sym (append-nil (content c.inner.inner))
  plain_chunks c c' (p ∷ ps) h = elim (Option-cases (w.file_write c.inner.inner p).1.1) [
    | inr (e, o) ↦ cc (rw (o, write_chunks) at h)
    | inl o ↦
        plain_chunks (compressed_write w c p).0 c' ps (rw (o, write_chunks) at h)
        ∙ ap (λ s. s ++ concat ps)
            (takes c.inner.inner p
              ∙ ap (λ s. content c.inner.inner ++ s)
                  (take_all (w.file_write c.inner.inner p).1.0 p (file_law.full c.inner.inner p o)))
        ∙ append_assoc (content c.inner.inner) p (concat ps)
  ]

  pub plain-Packs :
      (pack : Bytes → Option Bytes)
      → ((nar : Bytes) → pack nar ≡ some nar)
      → Packs content (nop_write_closer (compressed_write w)) pack
  plain-Packs pack h = record {
    packed = λ file ps opened c empty o s e.
        h (concat ps)
        ∙ ap some (
            sym (
              plain_chunks opened c ps s
              ∙ ap (λ k. content k.inner.inner ++ concat ps) (sym (some_inj o))
              ∙ ap (λ t. t ++ concat ps) empty));
  }
