-- ===== src/HashPart.antt =====
-- `queryPathFromHashPart` (internal/nixstore/local.go): from a digest to the store path that has
-- it, over the names of a directory listing. `sort.Search` is written out as in the Go library.
pub mod Order
pub mod Search
pub mod Correct
pub mod Total
use nixcached.Prelude.{
  ℕ, zero, suc, ◌+◌, ◌-◌, ◌/◌, Bool, true, false, List, [], ◌∷◌, Option, none, some, ltb, ◌==◌,
  if◌then◌else◌, length, get_elem?, take, drop, Bytes, same, has_prefix,
}
use nixcached.Nix.{Nix, StorePath}

-- `s <= t` on Go strings.
unfoldable pub bytes_le : Bytes → Bytes → Bool
bytes_le [] t = true
bytes_le (c ∷ s) [] = false
bytes_le (c ∷ s) (d ∷ t) = if ltb c d then true else if c == d then bytes_le s t else false

-- The loop of `sort.Search`: the interval from `i` to `j` is halved until it is empty.
unfoldable pub search_loop : ℕ → (ℕ → Bool) → ℕ → ℕ → ℕ
search_loop zero f i j = i
search_loop (suc fuel) f i j =
    let h = (i + j) / 2 in
    let low = search_loop fuel f i h in
    let high = search_loop fuel f (suc h) j in if ltb i j then (if f h then low else high) else i

-- `sort.Search(n, f)`. Every round makes the interval shorter, so `n` rounds are enough.
unfoldable pub sort_search : ℕ → (ℕ → Bool) → ℕ
unfolding search_loop
sort_search n f = search_loop n f 0 n

-- `entries[i].Name() >= digest`, for an index in range.
unfoldable pub at_least : List Bytes → Bytes → ℕ → Bool
unfolding bytes_le
at_least entries digest i = elim (get_elem? entries i) [ none ↦ true | some e ↦ bytes_le digest e ]

-- How far `end` moves: the entries at the front that begin with the digest.
unfoldable pub run_length : Bytes → List Bytes → ℕ
run_length digest [] = 0
run_length digest (e ∷ es) =
    let rest = run_length digest es in if has_prefix digest e then suc rest else 0

-- `entries[start:end]`
unfoldable pub narrow : List Bytes → Bytes → List Bytes
unfolding sort_search at_least run_length
narrow entries digest =
    let start = sort_search (length entries) (at_least entries digest) in
    take (run_length digest (drop start entries)) (drop start entries)

-- The loop over the entries.
unfoldable pub find_object : Nix → Bytes → List Bytes → Bytes → Option StorePath
find_object nix dir [] digest = none
find_object nix dir (e ∷ es) digest =
    let rest = find_object nix dir es digest in
    elim (nix.object dir e) [
      | none ↦ rest
      | some p ↦ if same (nix.digest p) digest then some p else rest
    ]

unfoldable pub query_path : Nix → Bytes → List Bytes → Bool → Bytes → Option StorePath
unfolding narrow find_object
query_path nix dir entries sorted digest =
    find_object nix dir (if sorted then narrow entries digest else entries) digest
