-- ===== src/Listing.antt =====
-- The list iterators of the stores (internal/nixstore): `localListIterator`, `memoryListIterator` and
-- `bucketListIterator`. What the directory or the bucket gives is a list.
pub mod Failures
pub mod Drain
use nixcached.Prelude.{
  ℕ, suc, Bool, true, false, ◌&&◌, not, List, [], ◌∷◌, ◌++◌, Option, none, some, if◌then◌else◌,
  Bytes,
}
use nixcached.Nix.{Nix}
use nixcached.NarUrl.{is_nar_info_path}
use nixcached.Serve.{trim_suffix}

-- `NextDigest`: a digest and the iterator behind it, `io.EOF`, or another error.
pub data Next (S : Type 0) : Type 0 where
  digest : Bytes → S → Next S
  ended : Next S
  failed : Next S

-- What a caller gets that asks until the end, for so many calls at most.
unfoldable pub drain : {S : Type 0} → (S → Next S) → ℕ → S → Option (List Bytes)
drain step ℕ.zero s = none
drain step (suc fuel) s = elim (step s) [
  | ended ↦ some []
  | failed ↦ none
  | digest d t ↦ elim (drain step fuel t) [ none ↦ none | some ds ↦ some (d ∷ ds) ]
]

-- What happens where the buffer is empty: the context has ended, or `ReadDir` gives the next entries, of
-- which there is one at least, or an error.
pub data Read : Type 0 where
  context_ended : Read
  chunk : Bytes → List Bytes → Read
  fails : Read

module _ (nix : Nix) where
  -- The entries in the buffer, and what comes where they are used up. An entry that is no store object
  -- is passed over.
  unfoldable pub from_buffer : {S : Type 0} → (List Bytes → S) → Next S → List Bytes → Next S
  from_buffer state more [] = more
  from_buffer state more (name ∷ buf) =
      let rest = from_buffer state more buf in
      elim (nix.object nix.default_dir name) [
        | none ↦ rest
        | some p ↦ digest (nix.digest p) (state buf)
      ]

  -- `memoryListIterator.NextDigest`
  unfoldable pub memory_next : List Bytes → Next (List Bytes)
  unfolding from_buffer
  memory_next buf = from_buffer (λ b. b) ended buf

  -- `localListIterator.NextDigest`, where the buffer is empty.
  unfoldable pub read_next : List Read → Next (List Bytes × List Read)
  unfolding from_buffer
  read_next [] = ended
  read_next (context_ended ∷ reads) = failed
  read_next (fails ∷ reads) = failed
  read_next (chunk name names ∷ reads) =
      from_buffer (λ b. (b, reads)) (read_next reads) (name ∷ names)

  unfoldable pub local_next : List Bytes × List Read → Next (List Bytes × List Read)
  unfolding from_buffer
  local_next (buf, reads) = from_buffer (λ b. (b, reads)) (read_next reads) buf

-- An object that the bucket lists: its key, and whether it stands for a directory.
pub record Listed : Type 0 where
  pub key : Bytes
  pub is_dir : Bool

-- `bucketListIterator.NextDigest`, on what the calls of `Next` give: an object, or an error that is not
-- `io.EOF`.
unfoldable pub bucket_next : Nix → List (Option Listed) → Next (List (Option Listed))
unfolding trim_suffix
bucket_next nix [] = ended
bucket_next nix (none ∷ more) = failed
bucket_next nix (some obj ∷ more) =
    let rest = bucket_next nix more in
    if not obj.is_dir && is_nar_info_path nix obj.key
    then digest (trim_suffix nix.nar_info_extension obj.key) more
    else rest
