-- ===== src/Upload/Refines.antt =====
-- The writers of `dump` do what the model of `dump` on whole archives says.
use nixcached.Prelude.{
  ◌≡◌, refl, sym, ap, ◌∙◌, Bool, true, false, List, [], ◌++◌, Option, none, some, Option-cases,
  Bool-cases, inl, inr, if◌then◌else◌, take, concat, Bytes,
}
use nixcached.Nix.{StorePath}
use nixcached.Compression.{Compression, no_compression, gzip, bzip2, xz, same_compression}
use nixcached.Upload.{Hash, World, extension_or_empty, is_supported, dump}
use nixcached.Upload.Stream.{
  HashWriter, new_hash_writer, Compressor, nop_write_closer, returns, send_chunks, Streamed,
  StreamWorld, CompressedWriter, compressed_write, compression_wrapper, list_if, listed, streamed,
  close_through, dump_through, dump_stream,
}
use nixcached.Upload.Writers.{IsWriter, WritesInside, Outcome-cases}
use nixcached.Upload.Pipe.{feed_all}
use nixcached.Upload.Chunks.{dump_stream-Describes}
use nixcached.Upload.Packs.{Fed, send_chunks-write_chunks, Packs, plain-Packs}

-- A world of whole archives that belongs to a world of streams: the archive of a path is its chunks in a
-- row; `nar.List` makes of chunks what it makes of them in a row; and so do the compressors, while nothing is made of them without a compressor.
pub record IsWholeOf {F E E' L : Type 0} (u : World E' L) (w : StreamWorld F E L)
    (content : F → Bytes) : Type 0 where
  pub archive :
      (path : StorePath)
      → (w.dump_path path).1 ≡ false
      → u.dump_path path ≡ some (concat (w.dump_path path).0)
  pub list :
      (ps : List Bytes) (l : w.lister.State)
      → feed_all w.lister w.lister.start ps ≡ some l
      → w.lister.finish l ≡ u.nar_list (concat ps)
  pub pack :
      (ct : Compression)
      → same_compression ct no_compression ≡ false
      → Packs content (w.compressor ct) (u.compress ct)
  pub plain : (nar : Bytes) → u.compress no_compression nar ≡ some nar
  pub sha256 : (s : Bytes) → u.sha256 s ≡ w.sha256 s
  pub raw_base32 : (h : Hash) → u.raw_base32 h ≡ w.raw_base32 h

module _ {F E E' L : Type 0} (u : World E' L) (w : StreamWorld F E L) (content : F → Bytes)
    (whole : IsWholeOf u w content) (path : StorePath) (ct : Compression) (listing : Bool) where
  -- The file holds the packed archive, and the listing is that of the archive.
  abbrev Holds : (Bytes → Option Bytes) → Streamed F L → Type 0
  Holds pack r =
      ((w.dump_path path).1 ≡ false)
      × (pack (concat (w.dump_path path).0) ≡ some (content r.file))
      × (r.listing ≡ (if listing then u.nar_list (concat (w.dump_path path).0) else none))

  Fed-listed :
      (b : Bool) (ps : List Bytes) (l : Option w.lister.State)
      → Fed w.lister (list_if w b) ps l
      → listed w l ≡ (if b then u.nar_list (concat ps) else none)
  Fed-listed false ps l f = ap (listed w) f
  Fed-listed true ps l (k, e, f) = ap (listed w) f ∙ whole.list ps k e

  module _ (compress : Compressor (CompressedWriter w) E) (pack : Bytes → Option Bytes)
      (packs : Packs content compress pack) where
    close_through-closed :
        (l : Option w.lister.State) (out : HashWriter compress.State) (r : Streamed F L)
        → close_through w compress path ct l out ≡ returns r
        → ((compress.close out.inner).1 ≡ none)
          × (streamed w path ct l out.fed out.n (compress.inner (compress.close out.inner).0) ≡ r)
    unfolding close_through
    close_through-closed l out r h = elim (Option-cases (compress.close out.inner).1) [
      | inr (e, o) ↦ cc (rw (o, close_through) at h)
      | inl o ↦ (o, cc (rw (o, close_through) at h))
    ]

    dump_through-Holds :
        (file : F) (r : Streamed F L)
        → content file ≡ []
        → dump_through w compress path ct listing file ≡ returns r
        → Holds pack r
    unfolding dump_through
    dump_through-Holds file r empty h =
        elim (Option-cases (compress.open_on (new_hash_writer (new_hash_writer file)))) [
          | inl o ↦ cc (rw (o, dump_through) at h)
          | inr (c, o) ↦
              elim (Outcome-cases (
                send_chunks compress.write w.lister (list_if w listing) (new_hash_writer c)
                  (w.dump_path path).0)) [
                    | inl s ↦ cc (rw (o, dump_through, s) at h)
                    | inr (inl s) ↦ cc (rw (o, dump_through, s) at h)
                    | inr (inr ((l, out), s)) ↦ elim (Bool-cases (w.dump_path path).1) [
                      | inl b ↦ cc (rw (o, dump_through, s, b) at h)
                      | inr b ↦
                          let (x, q) =
                            close_through-closed l out r (rw (o, dump_through, s, b) at h) in
                          let (all, f) =
                            send_chunks-write_chunks compress.write w.lister (list_if w listing)
                              (new_hash_writer c) (w.dump_path path).0 l out s in
                          (
                            b,
                            packs.packed file (w.dump_path path).0 c out.inner empty o all x
                                ∙ ap (λ k. some (content k.file)) q,
                            ap (λ k. k.listing) (sym q)
                                ∙ Fed-listed listing (w.dump_path path).0 l f,
                          )
                    ]
                  ]
        ]

module _ {F E L : Type 0} (w : StreamWorld F E L) where
  returns-is_supported :
      (path : StorePath) (ct : Compression) (listing : Bool) (file : F) (r : Streamed F L)
      → dump_stream w path ct listing file ≡ returns r
      → is_supported ct ≡ true
  unfolding dump_stream compression_wrapper is_supported
  returns-is_supported path no_compression listing file r h = refl
  returns-is_supported path gzip listing file r h = refl
  returns-is_supported path bzip2 listing file r h = refl
  returns-is_supported path xz listing file r h = refl
  returns-is_supported path ct listing file r h = cc h

  module _ {E' : Type 0} (u : World E' L) (content : F → Bytes) (file_law : IsWriter w.file_write)
      (takes : (f : F) (p : Bytes)
        → content (w.file_write f p).0 ≡ content f ++ take (w.file_write f p).1.0 p)
      (law : (ct : Compression) → IsWriter ((w.compressor ct).write))
      (inside : (ct : Compression) → WritesInside (compressed_write w) (w.compressor ct))
      (whole : IsWholeOf u w content) where
    dump_stream-Holds :
        (path : StorePath) (ct : Compression) (listing : Bool) (file : F) (r : Streamed F L)
        → content file ≡ []
        → dump_stream w path ct listing file ≡ returns r
        → Holds u w content whole path ct listing (u.compress ct) r
    unfolding dump_stream compression_wrapper same_compression
    dump_stream-Holds path no_compression listing file r empty h =
        dump_through-Holds u w content whole path no_compression listing
          (nop_write_closer (compressed_write w)) (u.compress no_compression)
          (plain-Packs w content file_law takes (u.compress no_compression) whole.plain) file r
          empty h
    dump_stream-Holds path gzip listing file r empty h =
        dump_through-Holds u w content whole path gzip listing (w.compressor gzip) (u.compress gzip)
          (whole.pack gzip refl) file r empty h
    dump_stream-Holds path bzip2 listing file r empty h =
        dump_through-Holds u w content whole path bzip2 listing (w.compressor bzip2)
          (u.compress bzip2) (whole.pack bzip2 refl) file r empty h
    dump_stream-Holds path xz listing file r empty h =
        dump_through-Holds u w content whole path xz listing (w.compressor xz) (u.compress xz)
          (whole.pack xz refl) file r empty h
    dump_stream-Holds path ct listing file r empty h = cc h

    -- Whatever the chain of writers of `dump` returns is what `dump` on the whole archive returns: the
    -- same info, the same listing, and the content that stands in the file, in a world of whole
    -- archives with the same archives and hashes. The file was empty and keeps what it takes, writers
    -- and compressors keep the contract of `io.Writer`, compressors change the file by writes
    -- alone, and what `nar.List` and each compressor, once it is closed, make of an archive does not
    -- depend on how it is cut into chunks and is what that world makes of it.
    pub dump_stream-dump :
        (path : StorePath) (ct : Compression) (listing : Bool) (file : F) (r : Streamed F L)
        → content file ≡ []
        → dump_stream w path ct listing file ≡ returns r
        → dump u path ct listing
          ≡ some (record { info = r.info; listing = r.listing; content = content r.file })
    unfolding dump extension_or_empty
    dump_stream-dump path ct listing file r empty h =
        let (i, m) =
          dump_stream-Describes w content file_law takes law inside path ct listing file r empty
            h in
        let (ended, packed, l) = dump_stream-Holds path ct listing file r empty h in
        rw (returns-is_supported path ct listing file r h, whole.archive path ended, packed, i)
          (rw
            (
              whole.sha256 (content r.file),
              whole.sha256 (concat (w.dump_path path).0),
              whole.raw_base32 (w.sha256 (content r.file)),
              l,
            )
            refl)
