-- ===== src/Tests/Listing.antt =====
-- Examples of listings.
use nixcached.Prelude.{
  ◌≡◌, refl, true, false, List, [], ◌∷◌, codes, same, contains_byte, cut_prefix, cut_suffix,
}
use nixcached.NarUrl.{is_nar_info_path, is_digest}
use nixcached.Serve.{trim_suffix}
use nixcached.Listing.{Read, chunk, Listed}
use nixcached.Listing.Drain.{digests_of, names_of, nar_infos_of}
use nixcached.Tests.Small.{tiny}

-- A directory that is read in two pieces; the second entry is no store object.
abbrev pieces : List Read
pieces = chunk (codes "aa-x") (codes "links" ∷ []) ∷ chunk (codes "ab-y") [] ∷ []

abbrev objects : List Listed
objects =
    record { key = codes "nix-cache-info"; is_dir = false }
    ∷ record { key = codes "nar/"; is_dir = true }
    ∷ record { key = codes "ab.narinfo"; is_dir = false }
    ∷ []

digests_of-pieces : digests_of tiny (names_of pieces) ≡ codes "aa" ∷ codes "ab" ∷ []
unfolding digests_of contains_byte
digests_of-pieces = refl

nar_infos_of-objects : nar_infos_of tiny objects ≡ codes "ab" ∷ []
unfolding nar_infos_of trim_suffix is_nar_info_path is_digest cut_suffix cut_prefix same
    contains_byte
nar_infos_of-objects = refl
