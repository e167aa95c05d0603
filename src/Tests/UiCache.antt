-- ===== src/Tests/UiCache.antt =====
-- Examples of the database behind the user interface.
use nixcached.Prelude.{
  ℤ, pos, suc, ◌≤◌, ◌≡◌, ◌≢◌, refl, sym, ap, true, false, List, [], ◌∷◌, ◌++◌, none, some, ◌>>=◌,
  map, length, take, drop, concat, All, inl, inr, Bytes, codes, same, contains_byte, cut_prefix,
}
use nixcached.Nix.{Nix}
use nixcached.Compression.{gzip}
use nixcached.HashPart.{bytes_le}
use nixcached.Upload.{NarInfo}
use nixcached.Serve.{hit}
use nixcached.UiCache.{Row, Database}
use nixcached.UiCache.Sql.{
  Formats, base, strip_slashes, after_slash, is_valid_row, is_object_name, is_digest_char,
  is_name_char, is_member, is_unique, put_row, insert_text, sort_texts, path_base,
  store_path_digest, store_path_name, hash_type_of, hash_bytes_of, signature_name_of,
  signature_data_of,
}
use nixcached.UiCache.Object.{
  join, row_of, known_size, size_or_unknown, null_if_empty, update_cached_store_object,
  select_nar_info,
}
use nixcached.UiCache.Printable.{IsPrintable, cached_form}
use nixcached.UiCache.Update.{update-select}
use nixcached.UiCache.Order.{IsDistinct}
use nixcached.UiCache.Rows.{matching}
use nixcached.UiCache.Index.{link, crawl}
use nixcached.UiCache.Pages.{crawl_complete}
use nixcached.UiCache.Conn.{
  Upstream, Discovered, is_known, cache_info, first_directory, nar_info, discover,
}
use nixcached.UiCache.Answers.{nar_info_twice}
use nixcached.UiCache.Batches.{CanSave}
use nixcached.UiCache.Discover.{Ends, discover-Ends, discover_finds}
use nixcached.Tests.Small.{tiny, object_of}

abbrev pub dir : Bytes
dir = codes "/nix/store"

-- A store path is its text, in the default directory.
abbrev paths : Nix
paths = record tiny {
  object = λ d entry. object_of entry >>= λ p. some (join d p);
  digest = λ p. take 2 (drop 11 p);
  name = λ p. drop 14 p;
}

abbrev pub formats : Formats
formats = record {
  nix = paths;
  parse_store_path = λ p. some p;
  parse_hash = λ s. cut_prefix (codes "s:") s;
  hash_type = λ h. codes "s";
  hash_bytes = λ h. h;
  hash_text = λ h. codes "s:" ++ h;
  parse_signature = λ s. some s;
  signature_name = λ s. take 1 s;
  parse_ca = λ s. some s;
  known_compression = λ s. some gzip;
  compression_text = λ c. codes "gzip";
  hex = λ s. s;
}

abbrev saved : NarInfo
saved = record {
  store_path = codes "/nix/store/aa-x";
  url = codes "nar/x";
  compression = gzip;
  file_hash = codes "F";
  file_size = pos 0;
  nar_hash = codes "N";
  nar_size = 3;
  references = codes "/nix/store/ac-z" ∷ codes "/nix/store/ab-y" ∷ [];
  deriver = [];
  sig = codes "k:s" ∷ [];
  ca = [];
}

saved-IsPrintable : IsPrintable formats dir saved
unfolding same contains_byte cut_prefix
saved-IsPrintable = record {
  path = record { entry = codes "aa-x"; whole = refl; filled = refl; plain = refl; parsed = refl };
  object = codes "/nix/store/aa-x";
  is_object = refl;
  named = refl;
  compression = refl;
  file_hash = inl (record { printed = refl; in_columns = refl });
  nar_hash = record { printed = refl; in_columns = refl };
  references = (
    record { entry = codes "ac-z"; whole = refl; filled = refl; plain = refl; parsed = refl },
    (record { entry = codes "ab-y"; whole = refl; filled = refl; plain = refl; parsed = refl }, tt),
  );
  deriver = inr refl;
  signatures = (record { data_ = codes "s"; whole = refl; parsed = refl }, tt);
  ca = inr refl;
}

abbrev empty_database : Database
empty_database = record { directories = dir ∷ []; objects = [] }

abbrev pub stored : Row
stored = record {
  path_digest = codes "aa";
  path_name = codes "x";
  url = codes "nar/x";
  compression = codes "gzip";
  file_hash_type = some (codes "s");
  file_hash_bytes = some (codes "F");
  file_size = none;
  nar_hash_type = codes "s";
  nar_hash_bytes = codes "N";
  nar_size = 3;
  deriver = none;
  ca = none;
  references = codes "ac-z" ∷ codes "ab-y" ∷ [];
  signatures = (codes "k", codes "s") ∷ [];
}

abbrev full_database : Database
full_database = record { directories = dir ∷ []; objects = stored ∷ [] }

row_of-saved : row_of formats saved ≡ some stored
unfolding row_of base strip_slashes after_slash cut_prefix contains_byte same known_size
    null_if_empty store_path_digest store_path_name hash_type_of hash_bytes_of path_base
    signature_name_of signature_data_of
row_of-saved = refl

stored-valid : is_valid_row stored ≡ true
unfolding is_valid_row is_object_name is_digest_char is_name_char is_member is_unique contains_byte
    same
stored-valid = refl

update-saved : update_cached_store_object formats saved empty_database ≡ some full_database
unfolding update_cached_store_object
update-saved = rw (row_of-saved, update_cached_store_object, stored-valid, put_row) refl

update-select_example :
    (select_nar_info formats full_database (codes "aa")
      ≡ some (some (cached_form formats dir saved)))
    × ((d : Bytes)
        → codes "aa" ≢ d
        → select_nar_info formats full_database d ≡ select_nar_info formats empty_database d)
unfolding saved-IsPrintable
update-select_example =
    update-select formats dir [] saved saved-IsPrintable empty_database full_database refl
      update-saved

-- The cached form has its references sorted and no file size.
cached_form-saved : cached_form formats dir saved ≡ record saved {
  file_size = ℤ.negsuc 0;
  references = codes "/nix/store/ab-y" ∷ codes "/nix/store/ac-z" ∷ [];
}
unfolding sort_texts insert_text base strip_slashes after_slash contains_byte bytes_le known_size
    size_or_unknown
cached_form-saved = refl

-- A store that has one object, and answers each batch that asks for it.
abbrev one_object : Upstream
one_object = record {
  cache_info = some dir;
  nar_info = λ digest. hit saved;
  batch = λ digests. saved ∷ [];
  store_directory = λ p. dir;
  clean_directory = λ d. some d;
  can_read = λ db digest. true;
  can_write = λ db. true;
}

nar_info_twice_example :
    (nar_info formats one_object (codes "aa") empty_database ≡ (hit saved, full_database))
    × (nar_info formats one_object (codes "aa") full_database
        ≡ (hit (cached_form formats dir saved), full_database))
unfolding saved-IsPrintable select_nar_info same
nar_info_twice_example =
    nar_info_twice formats one_object dir [] empty_database full_database (codes "aa") saved
      saved-IsPrintable refl refl refl refl refl refl refl update-saved refl refl refl

abbrev shown_as : Row → NarInfo
shown_as row = record saved {
  store_path = join dir (row.path_digest ++ (codes "-" ++ row.path_name));
}

abbrev second : Row
second = record stored { path_digest = codes "ab"; path_name = codes "y" }

abbrev two_rows : Database
two_rows = record { directories = dir ∷ []; objects = second ∷ stored ∷ [] }

differ : true ≢ false
differ e = cc e

two_rows-IsDistinct : IsDistinct two_rows.objects
unfolding same
two_rows-IsDistinct = ((λ e. absurd (differ (ap (same (codes "ab")) (sym e))), tt), (tt, tt))

crawl_complete_example :
    (pages : List (List NarInfo)) × (crawl paths
        (λ row. some (shown_as row))
        two_rows
        (suc (length (matching two_rows [])))
        dir
        true
        []
        []
      ≡ some pages)
    × (concat pages
        ≡ map
            (λ row. link paths (λ r. some (shown_as r)) two_rows (shown_as row))
            (matching two_rows []))
    × All (λ p. length p ≤ 100) pages
crawl_complete_example =
    crawl_complete paths (λ row. some (shown_as row)) two_rows shown_as two_rows-IsDistinct dir true
      [] ((refl, refl, refl), ((refl, refl, refl), tt))

discover-Ends_example :
    Ends
      (codes "aa" ∷ codes "zz" ∷ [])
      0
      (discover formats one_object (λ n. false) (codes "aa" ∷ codes "zz" ∷ []) empty_database)
discover-Ends_example =
    discover-Ends formats one_object (λ n. false) (codes "aa" ∷ codes "zz" ∷ []) empty_database

saved-CanSave : CanSave formats one_object dir (codes "aa") saved
unfolding same
saved-CanSave = record {
  inside = refl;
  row = stored;
  printed = row_of-saved;
  valid = stored-valid;
  digest = refl;
}

discover_finds_example :
    (r : Discovered) × (discover formats one_object
        (λ n. false)
        (codes "aa" ∷ codes "zz" ∷ [])
        empty_database
      ≡ some r)
    × (r.count ≡ 2)
    × (is_known r.db (codes "aa") ≡ true)
unfolding cache_info first_directory
discover_finds_example =
    discover_finds formats one_object dir (λ n. false) (codes "aa" ∷ codes "zz" ∷ []) empty_database
      empty_database (codes "aa") refl (λ m. refl) (λ db. refl) (λ db. refl) (inl refl)
      (λ ds i. inl saved-CanSave)
