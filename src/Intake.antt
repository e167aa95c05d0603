-- ===== src/Intake.antt =====
-- How the upload command takes store paths in (upload.go): the loop of `runUpload` over the scanned
-- texts and the queries of `gatherStorePathSet`. Handover has the goroutines of the two.
pub mod Jobs
pub mod Pipeline
pub mod Gather
pub mod Coverage
pub mod Setup
pub mod Reached
pub mod Handover
use nixcached.Prelude.{
  ℕ, suc, Bool, true, false, ◌&&◌, ◌||◌, not, List, [], ◌∷◌, ◌++◌, Option, none, some, ltb, leb,
  ◌==◌, if◌then◌else◌, length, is_empty, Bytes, same,
}
use nixcached.Nix.{Nix, StorePath}
use nixcached.Scan.{ScanResult}
use nixcached.Upload.{NarInfo}

-- White space: one byte, and the two and three bytes of the other code points.
unfoldable pub is_space : ℕ → Bool
is_space c = (leb 9 c && leb c 13) || c == 32

unfoldable pub is_space2 : ℕ → ℕ → Bool
is_space2 c d = c == 194 && (d == 133 || d == 160)

unfoldable pub is_space3 : ℕ → ℕ → ℕ → Bool
is_space3 c d e =
    (c == 225 && d == 154 && e == 128)
    || (c == 226 && d == 128 && ((leb 128 e && leb e 138) || e == 168 || e == 169 || e == 175))
    || (c == 226 && d == 129 && e == 159)
    || (c == 227 && d == 128 && e == 128)

-- `strings.TrimSpace(s) == ""`
unfoldable pub is_blank : Bytes → Bool
unfolding is_space is_space2 is_space3
is_blank [] = true
is_blank (c ∷ []) = is_space c
is_blank (c ∷ d ∷ []) = (is_space c && is_space d) || is_space2 c d
is_blank (c ∷ d ∷ e ∷ s) =
    let behind1 = is_blank (d ∷ e ∷ s) in
    let behind2 = is_blank (e ∷ s) in
    let behind3 = is_blank s in
    if is_space c
    then behind1
    else if is_space2 c d
    then behind2
    else if is_space3 c d e
    then behind3
    else false

-- One round of `scanLoop`: the store path that a text names, unless it is skipped.
unfoldable pub take_in : Nix → Bytes → Bytes → Option StorePath
unfolding is_blank
take_in nix dir raw =
    let parsed : Option StorePath = elim (nix.parse_path dir raw) [
      | none ↦ none
      | some (p, sub) ↦
          if not (is_empty sub) then none else if nix.is_derivation p then none else some p
    ] in
    if is_blank raw then none else parsed

unfoldable pub scan_loop : Nix → Bytes → List Bytes → List StorePath
scan_loop nix dir [] = []
scan_loop nix dir (raw ∷ tokens) =
    let rest = scan_loop nix dir tokens in
    elim (take_in nix dir raw) [ none ↦ rest | some p ↦ p ∷ rest ]

-- `runUpload` behind the scanner: what is sent to `processUploads`, and whether the scanner's error
-- is returned.
unfoldable pub run_intake : Nix → Bytes → ScanResult → List StorePath × Bool
run_intake nix dir scanned = (scan_loop nix dir scanned.tokens, scanned.too_long)

-- `cap(storePathBatch)`
abbrev pub batch_size : ℕ
batch_size = 100

-- `_, found := visited[p]`
unfoldable pub is_visited : StorePath → List StorePath → Bool
is_visited p [] = false
is_visited p (q ∷ visited) = same p q || is_visited p visited

-- The loop over the infos of one query: the infos that are kept, and the paths visited then.
unfoldable pub add_new : List NarInfo → List StorePath → List NarInfo × List StorePath
add_new [] visited = ([], visited)
add_new (info ∷ infos) visited =
    let skipped = add_new infos visited in
    let added = add_new infos (info.store_path ∷ visited) in
    if is_visited info.store_path visited
    then skipped
    else if not (is_empty info.nar_hash)
    then (info ∷ added.0, added.1)
    else added

-- The queries for one path each, with `none` for an error.
unfoldable pub gather_each :
    (List StorePath → Option (List NarInfo)) → List StorePath → List StorePath → List NarInfo
gather_each query [] visited = []
gather_each query (p ∷ paths) visited =
    let skipped = gather_each query paths visited in
    let queried : List NarInfo = elim (query (p ∷ [])) [
      | none ↦ skipped
      | some infos ↦
          let (kept, visited') = add_new infos visited in kept ++ gather_each query paths visited'
    ] in
    if is_visited p visited then skipped else queried

unfoldable pub gather_store_path_set :
    (List StorePath → Option (List NarInfo)) → List StorePath → List NarInfo
gather_store_path_set query paths = elim (query paths) [
  | some infos ↦ infos
  | none ↦ gather_each query paths []
]
