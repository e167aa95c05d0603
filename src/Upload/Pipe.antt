-- ===== src/Upload/Pipe.antt =====
-- When `dump` comes back: the archive also goes through a pipe to the goroutine that makes the
-- listing, and nobody else reads it.
use nixcached.Prelude.{
  eq_self, ◌≡◌, refl, ap, ◌∙◌, Bool, true, false, List, [], ◌∷◌, Option, none, some, Option-cases,
  some_inj, inl, inr, if◌then◌else◌, length, Bytes,
}
use nixcached.Nix.{StorePath}
use nixcached.Compression.{Compression}
use nixcached.Upload.Stream.{
  Write, HashWriter, new_hash_writer, hash_write, Compressor, Outcome, hangs, fails, returns,
  Lister, pass_on, send_chunks, Streamed, StreamWorld, CompressedWriter, compression_wrapper,
  list_if, streamed, close_through, dump_through, dump_stream,
}

-- Whether the lister takes all chunks, and its state behind them.
unfoldable pub feed_all :
    {L : Type 0} (lister : Lister L) → lister.State → List Bytes → Option lister.State
feed_all lister l [] = some l
feed_all lister l (p ∷ ps) = elim (lister.feed l p) [
  | none ↦ none
  | some l' ↦ feed_all lister l' ps
]

-- Every write takes everything.
abbrev pub TakesAll : {S E : Type 0} → Write S E → Type 0
TakesAll write = (s : _) (p : Bytes) → (write s p).1 ≡ (length p, none)

module _ {E C L : Type 0} (write : Write C E) (lister : Lister L) (good : TakesAll write) where
  hash_write-all : (w : HashWriter C) (p : Bytes) → (hash_write write w p).1 ≡ (length p, none)
  unfolding hash_write
  hash_write-all w p = good w.inner p

  pass_on-all :
      (l : lister.State) (p : Bytes)
      → pass_on write lister (some l) p (length p, none)
        ≡ elim (lister.feed l p) [ none ↦ hangs | some l' ↦ returns (some l') ]
  unfolding pass_on
  pass_on-all l p = rw (eq_self (length p)) refl

  pass_on-piped :
      (l : lister.State) (w : HashWriter C) (p : Bytes)
      → pass_on write lister (some l) p (hash_write write w p).1
        ≡ elim (lister.feed l p) [ none ↦ hangs | some l' ↦ returns (some l') ]
  pass_on-piped l w p = ap (pass_on write lister (some l) p) (hash_write-all w p) ∙ pass_on-all l p

  pass_on-alone :
      (w : HashWriter C) (p : Bytes)
      → pass_on write lister none p (hash_write write w p).1 ≡ returns none
  unfolding pass_on
  pass_on-alone w p = rw (hash_write-all w p, pass_on) refl

  pub send_chunks-hangs :
      (l : lister.State) (w : HashWriter C) (ps : List Bytes)
      → feed_all lister l ps ≡ none
      → send_chunks write lister (some l) w ps ≡ hangs
  unfolding send_chunks feed_all
  send_chunks-hangs l w [] h = cc h
  send_chunks-hangs l w (p ∷ ps) h = elim (Option-cases (lister.feed l p)) [
    | inl o ↦ rw (pass_on-piped l w p, send_chunks, o) refl
    | inr (l', o) ↦
        rw (pass_on-piped l w p, send_chunks, o)
          (send_chunks-hangs l' (hash_write write w p).0 ps (rw (o, feed_all) at h))
  ]

  pub send_chunks-piped :
      (l : lister.State) (w : HashWriter C) (ps : List Bytes) (l' : lister.State)
      → feed_all lister l ps ≡ some l'
      → (out : HashWriter C) × (send_chunks write lister (some l) w ps ≡ returns (some l', out))
  unfolding send_chunks feed_all
  send_chunks-piped l w [] l' h = (w, ap (λ m. returns (some m, w)) (some_inj h))
  send_chunks-piped l w (p ∷ ps) l' h = elim (Option-cases (lister.feed l p)) [
    | inl o ↦ cc (rw (o, feed_all) at h)
    | inr (m, o) ↦
        let (out, q) = send_chunks-piped m (hash_write write w p).0 ps l' (rw (o, feed_all) at h) in
        (out, rw (pass_on-piped l w p, send_chunks, o) q)
  ]

  pub send_chunks-alone :
      (w : HashWriter C) (ps : List Bytes)
      → (out : HashWriter C) × (send_chunks write lister none w ps ≡ returns (none, out))
  unfolding send_chunks
  send_chunks-alone w [] = (w, refl)
  send_chunks-alone w (p ∷ ps) =
      let (out, q) = send_chunks-alone (hash_write write w p).0 ps in
      (out, rw (pass_on-alone w p, send_chunks) q)

module _ {F E L : Type 0} (w : StreamWorld F E L) where
  -- Nothing fails on the way of the archive into the file.
  pub record GoesWell (path : StorePath) (ct : Compression)
      (compress : Compressor (CompressedWriter w) E) : Type 1 where
    pub supported : compression_wrapper w ct ≡ some compress
    pub opens : (c : CompressedWriter w) → (s : compress.State) × (compress.open_on c ≡ some s)
    pub takes : TakesAll compress.write
    pub closes : (s : compress.State) → (compress.close s).1 ≡ none
    pub reads : (w.dump_path path).1 ≡ false

  module _ (path : StorePath) (ct : Compression) (compress : Compressor (CompressedWriter w) E)
      (well : GoesWell path ct compress) (file : F) where
    open_rule :
        (listing : Bool) (P : Outcome (Streamed F L) → Type 0)
        → ((c : compress.State)
            → P
                (elim (send_chunks compress.write w.lister
                  (list_if w listing)
                  (new_hash_writer c)
                  (w.dump_path path).0) [
                    | hangs ↦ hangs
                    | fails ↦ fails
                    | returns (l, out) ↦
                        if (w.dump_path path).1
                        then fails
                        else close_through w compress path ct l out
                  ]))
        → P (dump_stream w path ct listing file)
    unfolding dump_stream dump_through
    open_rule listing P h =
        let (c, o) = well.opens (new_hash_writer (new_hash_writer file)) in
        rw (well.supported, dump_stream, o, dump_through) (h c)

    closes_with :
        (l : Option w.lister.State) (out : HashWriter compress.State)
        → close_through w compress path ct l out
          ≡ returns
              (streamed w path ct l out.fed out.n (compress.inner (compress.close out.inner).0))
    unfolding close_through
    closes_with l out = rw (well.closes out.inner, close_through) refl

    -- Where nothing else fails, `dump` with a listing comes back just when the goroutine takes all
    -- of the archive: if `nar.List` stops before, with an error or without, the write to the pipe
    -- waits for ever; else the listing is what it makes of the whole. Without a listing it always
    -- comes back.
    pub dump_stream-waits :
        (feed_all w.lister w.lister.start (w.dump_path path).0 ≡ none
          → dump_stream w path ct true file ≡ hangs)
        × ((l : w.lister.State)
            → feed_all w.lister w.lister.start (w.dump_path path).0 ≡ some l
            → (r : Streamed F L) × (dump_stream w path ct true file ≡ returns r)
              × (r.listing ≡ w.lister.finish l))
        × ((r : Streamed F L) × (dump_stream w path ct false file ≡ returns r))
    dump_stream-waits = (
      λ n.
          open_rule true (λ o. o ≡ hangs)
            (λ c.
              rw
                (send_chunks-hangs compress.write w.lister well.takes w.lister.start
                  (new_hash_writer c) (w.dump_path path).0 n)
                refl),
      λ l n.
          open_rule true
            (λ o. (r : Streamed F L) × (o ≡ returns r) × (r.listing ≡ w.lister.finish l))
            (λ c.
              let (out, q) =
                send_chunks-piped compress.write w.lister well.takes w.lister.start
                  (new_hash_writer c) (w.dump_path path).0 l n in
              rw (q, well.reads) (_, closes_with (some l) out, refl)),
      open_rule false (λ o. (r : Streamed F L) × (o ≡ returns r))
          (λ c.
            let (out, q) =
              send_chunks-alone compress.write w.lister well.takes (new_hash_writer c)
                (w.dump_path path).0 in
            rw (q, well.reads) (_, closes_with none out)),
    )
