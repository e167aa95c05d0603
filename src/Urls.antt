-- ===== src/Urls.antt =====
-- URLs as the stores of internal/nixstore take them apart, and `path.Clean` of Go's library, which
-- bucket.go applies to their paths.
pub mod Elements
pub mod Clean
pub mod Relative
pub mod Bucket
use nixcached.Prelude.{
  ℕ, Bool, true, false, ◌||◌, List, [], ◌∷◌, ◌++◌, ◌==◌, if◌then◌else◌, Bytes, codes, same,
}

-- `url.URL` without its user, which no store reads.
pub record Url : Type 0 where
  pub scheme : Bytes
  pub opaque : Bytes
  pub host : Bytes
  pub path : Bytes
  pub raw_query : Bytes
  pub fragment : Bytes

-- A byte in front of the elements of the rest.
unfoldable pub put_byte : ℕ → List Bytes → List Bytes
put_byte c [] = []
put_byte c (e ∷ es) = if c == 47 then [] ∷ e ∷ es else (c ∷ e) ∷ es

-- What stands between the slashes.
unfoldable pub elements : Bytes → List Bytes
elements [] = [] ∷ []
elements (c ∷ s) = put_byte c (elements s)

-- `..`: what was last goes, as far as there is something to go.
unfoldable pub go_up : Bool → List Bytes → List Bytes
go_up rooted [] = if rooted then [] else codes ".." ∷ []
go_up rooted (e ∷ es) = if same e (codes "..") then codes ".." ∷ e ∷ es else es

-- One element of a path, on the elements so far, the last one first.
unfoldable pub push : Bool → Bytes → List Bytes → List Bytes
unfolding go_up
push rooted e es =
    if same e [] || same e (codes ".")
    then es
    else if same e (codes "..")
    then go_up rooted es
    else e ∷ es

unfoldable pub push_all : Bool → List Bytes → List Bytes → List Bytes
push_all rooted [] es = es
push_all rooted (f ∷ fs) es = push_all rooted fs (push rooted f es)

-- A path that begins with a slash, from its elements, the last one first.
unfoldable pub rooted_path : List Bytes → Bytes
rooted_path [] = []
rooted_path (e ∷ es) = rooted_path es ++ (codes "/" ++ e)

unfoldable pub relative_path : List Bytes → Bytes
relative_path [] = []
relative_path (e ∷ []) = e
relative_path (e ∷ f ∷ es) = relative_path (f ∷ es) ++ (codes "/" ++ e)

-- `path.Clean`
unfoldable pub clean_rooted : List Bytes → Bytes
clean_rooted [] = codes "/"
clean_rooted (e ∷ es) = rooted_path (e ∷ es)

unfoldable pub clean_relative : List Bytes → Bytes
clean_relative [] = codes "."
clean_relative (e ∷ es) = relative_path (e ∷ es)

unfoldable pub clean : Bytes → Bytes
clean [] = codes "."
clean (c ∷ s) =
    if c == 47
    then clean_rooted (push_all true (elements (c ∷ s)) [])
    else clean_relative (push_all false (elements (c ∷ s)) [])
