-- ===== src/Tests/Streams.antt =====
-- An archive in two chunks on its way through the writers of `dump`.
use nixcached.Prelude.{
  ℕ, List, Option, concat, append-nil, append_assoc, ◌∙◌, ◌≡◌, refl, sym, ap, true, false, [], ◌∷◌,
  ◌++◌, none, some, length, arith, some_inj, Bytes, codes,
}
use nixcached.Compression.{
  Compression, no_compression, gzip, same_compression, compression_extension,
}
use nixcached.Upload.{World, not_found, dump, extension_or_empty}
use nixcached.Upload.Stream.{
  Write, HashWriter, hash_write, Compressor, hangs, returns, Lister, pass_on, send_chunks, Streamed,
  StreamWorld, compressed_write, compression_wrapper, close_through, dump_through, dump_stream,
}
use nixcached.Upload.Writers.{IsWriter, WritesInside, take_all}
use nixcached.Upload.Pipe.{feed_all, GoesWell, dump_stream-waits}
use nixcached.Upload.Packs.{write_chunks, Packs}
use nixcached.Upload.Refines.{IsWholeOf, dump_stream-dump}
use nixcached.Tests.Bucket.{world, dumped}

-- A file is its content, and takes all that is written.
abbrev append : Write Bytes ℕ
append f p = (f ++ p, (length p, none))

abbrev File : Type 0
File = HashWriter (HashWriter Bytes)

-- A compressor that keeps all in memory and writes it behind a letter when it is closed.
abbrev letter : Compressor File ℕ
letter = record {
  State = File × Bytes;
  open_on = λ w. some (w, []);
  write = λ s p. ((s.0, s.1 ++ p), (length p, none));
  close = λ s. (((hash_write (hash_write append) s.0 (codes "z" ++ s.1)).0, []), none);
  inner = λ s. s.0;
}

abbrev whole_lister : Lister Bytes
whole_lister = record {
  State = Bytes;
  start = [];
  feed = λ l p. some (l ++ p);
  finish = λ l. some l;
}

abbrev stream : StreamWorld Bytes ℕ Bytes
stream = record {
  file_write = append;
  compressor = λ ct. letter;
  dump_path = λ path. (codes "NA" ∷ codes "R" ∷ [], false);
  lister = whole_lister;
  sha256 = λ s. s;
  raw_base32 = λ h. h;
}

append-IsWriter : IsWriter append
append-IsWriter = record { within = λ s p. omega arith; full = λ s p e. refl }

letter-IsWriter : IsWriter letter.write
letter-IsWriter = record { within = λ s p. omega arith; full = λ s p e. refl }

letter-WritesInside : WritesInside (compressed_write stream) letter
letter-WritesInside = record {
  opened = λ P w s e p. rw (sym (some_inj e)) p;
  written = λ P h s p i. i;
  closed = λ P h s i. h s.0 (codes "z" ++ s.1) i;
}

abbrev result : Streamed Bytes Bytes
result = record {
  info = dumped.info;
  listing = some (codes "NAR");
  md5_of = codes "zNAR";
  file = codes "zNAR";
}

stream-returns : dump_stream stream (codes "ab-x") gzip true [] ≡ returns result
unfolding dump_stream compression_wrapper dump_through send_chunks pass_on hash_write close_through
    compression_extension extension_or_empty
stream-returns = refl

-- The world of whole archives in which every compressor writes a letter before the archive.
abbrev pack : Compression → Bytes → Option Bytes
pack no_compression nar = some nar
pack ct nar = some (codes "z" ++ nar)

abbrev whole : World ℕ Bytes
whole = record (world not_found) { compress = pack }

feed_all-whole_lister :
    (ps : List Bytes) (l k : Bytes) → feed_all whole_lister l ps ≡ some k → k ≡ l ++ concat ps
unfolding feed_all
feed_all-whole_lister [] l k h = sym (some_inj h) ∙ sym (append-nil l)
feed_all-whole_lister (p ∷ ps) l k h =
    feed_all-whole_lister ps (l ++ p) k h ∙ append_assoc l p (concat ps)

write_chunks-letter :
    (ps : List Bytes) (s t : letter.State)
    → write_chunks letter.write s ps ≡ some t
    → t ≡ (s.0, s.1 ++ concat ps)
unfolding write_chunks
write_chunks-letter [] s t h = sym (some_inj h) ∙ ap (λ q. (s.0, q)) (sym (append-nil s.1))
write_chunks-letter (p ∷ ps) s t h =
    write_chunks-letter ps (s.0, s.1 ++ p) t h ∙ ap (λ q. (s.0, q)) (append_assoc s.1 p (concat ps))

letter-Packs : Packs (λ (f : Bytes). f) letter (λ nar. some (codes "z" ++ nar))
unfolding hash_write
letter-Packs = record {
  packed = λ file ps opened c empty o s e.
      ap (λ (f : Bytes). some (f ++ (codes "z" ++ concat ps))) (sym empty)
      ∙ ap (λ (k : letter.State). some (k.0.inner.inner ++ (codes "z" ++ (k.1 ++ concat ps))))
          (some_inj o)
      ∙ ap (λ (k : letter.State). some (k.0.inner.inner ++ (codes "z" ++ k.1)))
          (sym (write_chunks-letter ps opened c s));
}

pack-Packs :
    (ct : Compression)
    → same_compression ct no_compression ≡ false
    → Packs (λ (f : Bytes). f) letter (pack ct)
unfolding same_compression
pack-Packs no_compression h = cc h
pack-Packs ct h = letter-Packs

whole-IsWholeOf : IsWholeOf whole stream (λ (f : Bytes). f)
whole-IsWholeOf = record {
  archive = λ path e. refl;
  list = λ ps l h. ap some (feed_all-whole_lister ps [] l h);
  pack = pack-Packs;
  plain = λ nar. refl;
  sha256 = λ s. refl;
  raw_base32 = λ h. refl;
}

dump_stream-dump_example : dump whole (codes "ab-x") gzip true ≡ some dumped
dump_stream-dump_example =
    dump_stream-dump stream whole (λ (f : Bytes). f) append-IsWriter
      (λ f p. ap (λ q. f ++ q) (sym (take_all (length p) p refl))) (λ ct. letter-IsWriter)
      (λ ct. letter-WritesInside) whole-IsWholeOf (codes "ab-x") gzip true [] result refl
      stream-returns

stream-GoesWell : GoesWell stream (codes "ab-x") gzip letter
unfolding compression_wrapper
stream-GoesWell = record {
  supported = refl;
  opens = λ c. ((c, []), refl);
  takes = λ s p. refl;
  closes = λ s. refl;
  reads = refl;
}

dump_stream-waits_example :
    (feed_all whole_lister [] (codes "NA" ∷ codes "R" ∷ []) ≡ none
      → dump_stream stream (codes "ab-x") gzip true [] ≡ hangs)
    × ((l : Bytes)
        → feed_all whole_lister [] (codes "NA" ∷ codes "R" ∷ []) ≡ some l
        → (r : Streamed Bytes Bytes) × (dump_stream stream (codes "ab-x") gzip true [] ≡ returns r)
          × (r.listing ≡ some l))
    × ((r : Streamed Bytes Bytes) × (dump_stream stream (codes "ab-x") gzip false [] ≡ returns r))
dump_stream-waits_example = dump_stream-waits stream (codes "ab-x") gzip letter stream-GoesWell []

-- A lister that gives up at once.
abbrev deaf : StreamWorld Bytes ℕ Bytes
deaf = record stream { lister = record whole_lister { feed = λ l p. none } }

deaf-hangs : dump_stream deaf (codes "ab-x") gzip true [] ≡ hangs
unfolding dump_stream compression_wrapper dump_through send_chunks pass_on hash_write
deaf-hangs = refl
