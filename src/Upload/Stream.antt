-- ===== src/Upload/Stream.antt =====
-- The writers of `dump` (upload.go): `hashWriter`, `nopWriteCloser`, and how the archive goes through
-- them chunk by chunk. The file, the compressors, `nar.DumpPath` and `nar.List` are arguments.
use nixcached.Prelude.{
  ℕ, pos, ◌+◌, Bool, List, [], ◌∷◌, ◌++◌, Option, none, some, ◌==◌, if◌then◌else◌, length, take,
  Bytes, codes,
}
use nixcached.Nix.{StorePath}
use nixcached.Compression.{Compression, no_compression, gzip, bzip2, xz}
use nixcached.Upload.{Hash, NarInfo, extension_or_empty}

-- `io.Writer`: the state behind a write, how many bytes it took, and its error.
abbrev pub Write : Type 0 → Type 0 → Type 0
Write S E = S → Bytes → S × (ℕ × Option E)

-- `hashWriter`: the writer inside, what the hasher has been given, and the count.
pub record HashWriter (S : Type 0) : Type 0 where
  pub inner : S
  pub fed : Bytes
  pub n : ℕ

abbrev pub new_hash_writer : {S : Type 0} → S → HashWriter S
new_hash_writer s = record { inner = s; fed = []; n = 0 }

-- `(*hashWriter).Write`
unfoldable pub hash_write : {S E : Type 0} → Write S E → Write (HashWriter S) E
hash_write write w p =
    let r = write w.inner p in
    (record { inner = r.0; fed = w.fed ++ take r.1.0 p; n = w.n + r.1.0 }, r.1)

-- An entry of `compressionWrappers` at work on a writer of type `W`.
pub record Compressor (W E : Type 0) : Type 1 where
  pub State : Type 0
  pub open_on : W → Option State
  pub write : Write State E
  pub close : State → State × Option E
  pub inner : State → W

-- `nopWriteCloser`
abbrev pub nop_write_closer : {W E : Type 0} → Write W E → Compressor W E
nop_write_closer write = record {
  State = _;
  open_on = λ w. some w;
  write = write;
  close = λ w. (w, none);
  inner = λ w. w;
}

-- A call that may not come back.
pub data Outcome {ℓ} (A : Type ℓ) : Type ℓ where
  hangs : Outcome A
  fails : Outcome A
  returns : A → Outcome A

-- `nar.List` at the end of the pipe: whether it takes all of a chunk, and what it makes of the end.
-- A write to the pipe waits until all of it is taken.
pub record Lister (L : Type 0) : Type 1 where
  pub State : Type 0
  pub start : State
  pub feed : State → Bytes → Option State
  pub finish : State → Option L

module _ {E C L : Type 0} (write : Write C E) (lister : Lister L) where
  -- What the output of the archiver does behind the write to the compressor: alone it hands the
  -- result on; with a listing it is an `io.MultiWriter`.
  unfoldable pub pass_on :
      Option lister.State → Bytes → ℕ × Option E → Outcome (Option lister.State)
  pass_on l p (n, some e) = fails
  pass_on none p (n, none) = returns none
  pass_on (some l) p (n, none) =
      let piped : Outcome (Option lister.State) = elim (lister.feed l p) [
        | none ↦ hangs
        | some l' ↦ returns (some l')
      ] in
      if n == length p then piped else fails

  -- `nar.DumpPath` writes its chunks until a write fails.
  unfoldable pub send_chunks :
      Option lister.State → HashWriter C → List Bytes → Outcome (Option lister.State × HashWriter C)
  send_chunks l w [] = returns (l, w)
  send_chunks l w (p ∷ ps) = elim (pass_on l p (hash_write write w p).1) [
    | hangs ↦ hangs
    | fails ↦ fails
    | returns l' ↦ send_chunks l' (hash_write write w p).0 ps
  ]

-- What `dump` returns, with the file as it leaves it.
pub record Streamed (F L : Type 0) : Type 0 where
  pub info : NarInfo
  pub listing : Option L
  pub md5_of : Bytes
  pub file : F

-- The world of `dump`.
pub record StreamWorld (F E L : Type 0) : Type 1 where
  pub file_write : Write F E
  -- `gzip`, `bzip2` and `xz`
  pub compressor : Compression → Compressor (HashWriter (HashWriter F)) E
  -- the chunks of the archive, and whether an error comes behind them
  pub dump_path : StorePath → List Bytes × Bool
  pub lister : Lister L
  pub sha256 : Bytes → Hash
  pub raw_base32 : Hash → Bytes

module _ {F E L : Type 0} (w : StreamWorld F E L) where
  abbrev pub CompressedWriter : Type 0
  CompressedWriter = HashWriter (HashWriter F)

  -- The file behind the SHA-256 and the MD5 of what is written to it.
  abbrev pub compressed_write : Write CompressedWriter E
  compressed_write = hash_write (hash_write w.file_write)

  -- `compressionWrappers[ct]`
  unfoldable pub compression_wrapper : Compression → Option (Compressor CompressedWriter E)
  compression_wrapper no_compression = some (nop_write_closer compressed_write)
  compression_wrapper gzip = some (w.compressor gzip)
  compression_wrapper bzip2 = some (w.compressor bzip2)
  compression_wrapper xz = some (w.compressor xz)
  compression_wrapper c = none

  abbrev pub list_if : Bool → Option w.lister.State
  list_if listing = if listing then some w.lister.start else none

  abbrev pub listed : Option w.lister.State → Option L
  listed none = none
  listed (some l) = w.lister.finish l

  abbrev pub streamed :
      StorePath → Compression → Option w.lister.State → Bytes → ℕ → CompressedWriter → Streamed F L
  streamed path ct l nar n c = record {
    info = record {
      store_path = path;
      url =
          codes "nar/"
          ++ (w.raw_base32 (w.sha256 c.inner.fed) ++ (codes ".nar" ++ extension_or_empty ct));
      compression = ct;
      file_hash = w.sha256 c.inner.fed;
      file_size = pos c.inner.n;
      nar_hash = w.sha256 nar;
      nar_size = n;
      references = [];
      deriver = [];
      sig = [];
      ca = [];
    };
    listing = listed l;
    md5_of = c.fed;
    file = c.inner.inner;
  }

  -- What follows the archiver: the compressor is closed, and the sums are taken.
  unfoldable pub close_through :
      (compress : Compressor CompressedWriter E)
      → StorePath
      → Compression
      → Option w.lister.State
      → HashWriter compress.State
      → Outcome (Streamed F L)
  close_through compress path ct l out =
      let (c, error) = compress.close out.inner in
      elim error [
        | some e ↦ fails
        | none ↦ returns (streamed path ct l out.fed out.n (compress.inner c))
      ]

  -- From the compressor on.
  unfoldable pub dump_through :
      Compressor CompressedWriter E → StorePath → Compression → Bool → F → Outcome (Streamed F L)
  dump_through compress path ct listing file =
      elim (compress.open_on (new_hash_writer (new_hash_writer file))) [
        | none ↦ fails
        | some c ↦
            elim (send_chunks compress.write w.lister (list_if listing) (new_hash_writer c)
              (w.dump_path path).0) [
                | hangs ↦ hangs
                | fails ↦ fails
                | returns (l, out) ↦
                    if (w.dump_path path).1 then fails else close_through compress path ct l out
              ]
      ]

  -- `dump`
  unfoldable pub dump_stream : StorePath → Compression → Bool → F → Outcome (Streamed F L)
  dump_stream path ct listing file = elim (compression_wrapper ct) [
    | none ↦ fails
    | some compress ↦ dump_through compress path ct listing file
  ]
