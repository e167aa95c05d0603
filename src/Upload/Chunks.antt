-- ===== src/Upload/Chunks.antt =====
-- What `dump` returns describes the file that it leaves, however the archive is cut into chunks.
use nixcached.Prelude.{
  ℕ, pos, ◌≡◌, refl, sym, ap, ◌∙◌, arith, Bool, [], ◌++◌, Option, Option-cases, Bool-cases, inl,
  inr, length, length-append, take, concat, Bytes, codes,
}
use nixcached.Nix.{StorePath}
use nixcached.Compression.{Compression, no_compression, gzip, bzip2, xz}
use nixcached.Upload.{NarInfo, extension_or_empty}
use nixcached.Upload.Stream.{
  HashWriter, new_hash_writer, hash_write, Compressor, nop_write_closer, returns, send_chunks,
  Streamed, StreamWorld, CompressedWriter, compressed_write, compression_wrapper, list_if, streamed,
  close_through, dump_through, dump_stream,
}
use nixcached.Upload.Writers.{
  IsWriter, WritesInside, nop-WritesInside, length-take, Outcome-cases, hash_write-IsWriter,
  send_chunks_rule,
}

module _ {F E L : Type 0} (w : StreamWorld F E L) (content : F → Bytes)
    (file_law : IsWriter w.file_write)
    (takes : (f : F) (p : Bytes)
      → content (w.file_write f p).0 ≡ content f ++ take (w.file_write f p).1.0 p)
    (law : (ct : Compression) → IsWriter ((w.compressor ct).write))
    (inside : (ct : Compression) → WritesInside (compressed_write w) (w.compressor ct)) where
  -- Both sums and the count are of what is in the file.
  abbrev Consistent : CompressedWriter w → Type 0
  Consistent c =
      (content c.inner.inner ≡ c.inner.fed)
      × (c.fed ≡ c.inner.fed)
      × (c.inner.n ≡ length c.inner.fed)

  Consistent-write :
      (c : CompressedWriter w) (p : Bytes) → Consistent c → Consistent (compressed_write w c p).0
  unfolding hash_write
  Consistent-write c p (f, m, n) =
      let k = (w.file_write c.inner.inner p).1.0 in
      let q : Bytes = take k p in
      (
        takes c.inner.inner p ∙ ap (λ s. s ++ q) f,
        ap (λ s. s ++ q) m,
        omega (
          arith,
          n,
          length-append c.inner.fed q,
          length-take k p (file_law.within c.inner.inner p),
        ),
      )

  -- The info of an archive and of its compressed form.
  abbrev pub written_info : StorePath → Compression → Bytes → Bytes → NarInfo
  written_info path ct nar compressed = record {
    store_path = path;
    url =
        codes "nar/"
        ++ (w.raw_base32 (w.sha256 compressed) ++ (codes ".nar" ++ extension_or_empty ct));
    compression = ct;
    file_hash = w.sha256 compressed;
    file_size = pos (length compressed);
    nar_hash = w.sha256 nar;
    nar_size = length nar;
    references = [];
    deriver = [];
    sig = [];
    ca = [];
  }

  -- The info and the MD5 sum are those of the archive and of the file.
  abbrev pub Describes : StorePath → Compression → Bytes → Streamed F L → Type 0
  Describes path ct nar r =
      (r.info ≡ written_info path ct nar (content r.file)) × (r.md5_of ≡ content r.file)

  module _ (compress : Compressor (CompressedWriter w) E) (claw : IsWriter compress.write)
      (cinside : WritesInside (compressed_write w) compress) (path : StorePath)
      (ct : Compression) where
    streamed-Describes :
        (l : Option w.lister.State) (nar : Bytes) (n : ℕ) (c : CompressedWriter w)
        → n ≡ length nar
        → Consistent c
        → Describes path ct nar (streamed w path ct l nar n c)
    streamed-Describes l nar n c e (f, m, k) = (rw (f, k, e) refl, m ∙ sym f)

    close_through-Describes :
        (l : Option w.lister.State) (out : HashWriter compress.State) (nar : Bytes)
        (r : Streamed F L)
        → close_through w compress path ct l out ≡ returns r
        → (out.fed ≡ nar)
        → (out.n ≡ length nar)
        → Consistent (compress.inner out.inner)
        → Describes path ct nar r
    unfolding close_through
    close_through-Describes l out nar r h f n i = elim (Option-cases (compress.close out.inner).1) [
      | inr (e, o) ↦ cc (rw (o, close_through) at h)
      | inl o ↦
          let q : streamed w path ct l out.fed out.n (compress.inner (compress.close out.inner).0)
              ≡ r =
            cc (rw (o, close_through) at h) in
          rw (sym q, sym f)
            (streamed-Describes l out.fed out.n (compress.inner (compress.close out.inner).0)
              (n ∙ ap length (sym f)) (cinside.closed Consistent Consistent-write out.inner i))
    ]

    dump_through-Describes :
        (listing : Bool) (file : F) (r : Streamed F L)
        → content file ≡ []
        → dump_through w compress path ct listing file ≡ returns r
        → Describes path ct (concat (w.dump_path path).0) r
    unfolding dump_through
    dump_through-Describes listing file r empty h =
        elim (Option-cases (compress.open_on (new_hash_writer (new_hash_writer file)))) [
          | inl o ↦ cc (rw (o, dump_through) at h)
          | inr (c, o) ↦
              elim (Outcome-cases (
                send_chunks compress.write w.lister (list_if w listing) (new_hash_writer c)
                  (w.dump_path path).0)) [
                    | inl s ↦ cc (rw (o, dump_through, s) at h)
                    | inr (inl s) ↦ cc (rw (o, dump_through, s) at h)
                    | inr (inr ((l, out), s)) ↦ elim (Bool-cases (w.dump_path path).1) [
                      | inl b ↦ cc (rw (o, dump_through, s, b) at h)
                      | inr b ↦
                          let start : Consistent (compress.inner c) =
                            cinside.opened Consistent (new_hash_writer (new_hash_writer file)) c o
                              (empty, refl, refl) in
                          let (f, n, i) =
                            send_chunks_rule compress.write w.lister claw
                              (λ k. Consistent (compress.inner k))
                              (λ k q. cinside.written Consistent Consistent-write k q)
                              (list_if w listing) (new_hash_writer c) (w.dump_path path).0 l out s
                              start in
                          close_through-Describes l out (concat (w.dump_path path).0) r
                            (rw (o, dump_through, s, b) at h) f (n ∙ omega arith) i
                    ]
                  ]
        ]

  -- Whatever `dump` returns describes what it has done: the NAR hash and size are those of the whole
  -- archive, and the file hash, the file size, the MD5 sum and the file's name are those of what the
  -- file holds, however the archive and the compressor's output are cut into writes and even where
  -- the file took less than it was given. The file was empty, writers keep the contract of
  -- `io.Writer`, and the compressors change what they write to by writes alone.
  pub dump_stream-Describes :
      (path : StorePath) (ct : Compression) (listing : Bool) (file : F) (r : Streamed F L)
      → content file ≡ []
      → dump_stream w path ct listing file ≡ returns r
      → Describes path ct (concat (w.dump_path path).0) r
  unfolding dump_stream compression_wrapper
  dump_stream-Describes path no_compression listing file r empty h =
      dump_through-Describes (nop_write_closer (compressed_write w))
        (hash_write-IsWriter (hash_write w.file_write) (hash_write-IsWriter w.file_write file_law))
        (nop-WritesInside (compressed_write w)) path no_compression listing file r empty h
  dump_stream-Describes path gzip listing file r empty h =
      dump_through-Describes (w.compressor gzip) (law gzip) (inside gzip) path gzip listing file r
        empty h
  dump_stream-Describes path bzip2 listing file r empty h =
      dump_through-Describes (w.compressor bzip2) (law bzip2) (inside bzip2) path bzip2 listing file
        r empty h
  dump_stream-Describes path xz listing file r empty h =
      dump_through-Describes (w.compressor xz) (law xz) (inside xz) path xz listing file r empty h
  dump_stream-Describes path ct listing file r empty h = cc h
