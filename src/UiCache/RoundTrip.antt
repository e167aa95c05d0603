-- ===== src/UiCache/RoundTrip.antt =====
-- An info that is written into the database is read back.
use nixcached.Prelude.{
  ℕ, ◌≡◌, refl, sym, ap, ◌∙◌, false, ◌⊎◌, List, [], ◌∷◌, ◌++◌, none, some, ◌>>=◌, inl, inr, All,
  map, is_empty, Bytes, codes, cut_prefix, cut_prefix-append,
}
use nixcached.Nix.{StorePath}
use nixcached.Upload.{NarInfo, Hash}
use nixcached.UiCache.{Row, Database}
use nixcached.UiCache.Sql.{
  Formats, base, traverse, sort_texts, path_base, store_path_digest, store_path_name, hash_type_of,
  hash_bytes_of, signature_name_of, signature_data_of,
}
use nixcached.UiCache.Object.{
  null_if_empty, known_size, get_text, signature_row, row_of, hash_column, unless_empty, join,
  extract_nar_info_from_row,
}
use nixcached.UiCache.Paths.{
  base-join, sort_texts-map, All-sort_texts, traverse_images, traverse_back,
}
use nixcached.UiCache.Printable.{IsPath, IsHash, IsSignature, IsPrintable, cached_form}

append-is_empty : (s : Bytes) (c : ℕ) (t : Bytes) → is_empty (s ++ c ∷ t) ≡ false
append-is_empty [] c t = refl
append-is_empty (d ∷ s) c t = refl

module _ (fm : Formats) (dir : Bytes) where
  path-base : (p : StorePath) (i : IsPath fm dir p) → base p ≡ i.entry
  path-base p i = ap base i.whole ∙ base-join dir i.entry i.filled i.plain

  path-join : (p : StorePath) → IsPath fm dir p → join dir (base p) ≡ p
  path-join p i = ap (join dir) (path-base p i) ∙ sym i.whole

  -- Reading a path column.
  path-read : (p : StorePath) → IsPath fm dir p → fm.parse_store_path (join dir (base p)) ≡ some p
  path-read p i = ap fm.parse_store_path (path-join p i) ∙ i.parsed

  hash-read :
      (h : Hash)
      → IsHash fm dir h
      → unless_empty fm.parse_hash (
          get_text (
            hash_column fm
              (hash_type_of fm (some (fm.hash_text h)))
              (hash_bytes_of fm (some (fm.hash_text h)))))
        ≡ some h
  unfolding hash_column hash_type_of hash_bytes_of get_text
  hash-read h i =
      rw (i.printed, append-is_empty (fm.hash_type h) 58 (fm.hex (fm.hash_bytes h))) i.in_columns

  file_hash-read :
      (h : Hash)
      → IsHash fm dir h ⊎ ((h ≡ []) × (fm.parse_hash (fm.hash_text []) ≡ none))
      → unless_empty fm.parse_hash (
          get_text (
            hash_column fm
              (hash_type_of fm (some (fm.hash_text h)))
              (hash_bytes_of fm (some (fm.hash_text h)))))
        ≡ some h
  file_hash-read h (inl i) = hash-read h i
  file_hash-read h (inr (e, n)) =
      unfold hash_column hash_type_of hash_bytes_of get_text in rw (e, n) refl

  deriver-read :
      (p : StorePath)
      → IsPath fm dir p ⊎ (p ≡ [])
      → unless_empty fm.parse_store_path
          (get_text (path_base fm (null_if_empty p) >>= λ d. some (join dir d)))
        ≡ some p
  unfolding path_base null_if_empty get_text
  deriver-read [] h = refl
  deriver-read (c ∷ p) (inr e) = cc e
  deriver-read (c ∷ p) (inl i) = rw (append-is_empty dir 47 (base (c ∷ p))) (path-read (c ∷ p) i)

  ca-read :
      (ca : Bytes)
      → (fm.parse_ca ca ≡ some ca) ⊎ (ca ≡ [])
      → unless_empty fm.parse_ca (get_text (null_if_empty ca)) ≡ some ca
  unfolding null_if_empty get_text
  ca-read [] h = refl
  ca-read (c ∷ s) (inl e) = e
  ca-read (c ∷ s) (inr e) = cc e

  -- The two columns of a signature.
  abbrev columns : Bytes → Bytes × Bytes
  columns s = (fm.signature_name s, get_text (signature_data_of fm (some s)))

  signature-data :
      (s : Bytes) (i : IsSignature fm dir s) → signature_data_of fm (some s) ≡ some i.data_
  unfolding signature_data_of
  signature-data s i =
      let front : cut_prefix (fm.signature_name s) s ≡ some (codes ":" ++ i.data_) =
        ap (cut_prefix (fm.signature_name s)) i.whole
        ∙ cut_prefix-append (fm.signature_name s) (codes ":" ++ i.data_) in
      rw (i.parsed, front) (cut_prefix-append (codes ":") i.data_)

  signature-columns : (s : Bytes) → IsSignature fm dir s → signature_row fm s ≡ some (columns s)
  unfolding signature_name_of get_text
  signature-columns s i = rw (i.parsed, signature-data s i) refl

  signature-read :
      (s : Bytes)
      → IsSignature fm dir s
      → fm.parse_signature ((columns s).0 ++ (codes ":" ++ (columns s).1)) ≡ some s
  unfolding get_text
  signature-read s i = rw (signature-data s i) (ap fm.parse_signature (sym i.whole) ∙ i.parsed)

  All-map :
      {A : Type 0} (P Q : A → Type 0) (f : (x : A) → P x → Q x) (xs : List A) → All P xs → All Q xs
  All-map P Q f [] h = tt
  All-map P Q f (x ∷ xs) (p, h) = (f x p, All-map P Q f xs h)

  -- The row of an info.
  abbrev pub printed_row : (info : NarInfo) → IsPrintable fm dir info → Row
  printed_row info i = record {
    path_digest = fm.nix.digest i.object;
    path_name = fm.nix.name i.object;
    url = info.url;
    compression = fm.compression_text info.compression;
    file_hash_type = hash_type_of fm (some (fm.hash_text info.file_hash));
    file_hash_bytes = hash_bytes_of fm (some (fm.hash_text info.file_hash));
    file_size = known_size info.file_size;
    nar_hash_type = fm.hash_type info.nar_hash;
    nar_hash_bytes = fm.hash_bytes info.nar_hash;
    nar_size = info.nar_size;
    deriver = path_base fm (null_if_empty info.deriver);
    ca = null_if_empty info.ca;
    references = map base info.references;
    signatures = map columns info.sig;
  }

  object-found :
      (info : NarInfo) (i : IsPrintable fm dir info)
      → fm.nix.object fm.nix.default_dir (base info.store_path) ≡ some i.object
  object-found info i =
      ap (fm.nix.object fm.nix.default_dir) (path-base info.store_path i.path) ∙ i.is_object

  pub row_of-eq :
      (info : NarInfo) (i : IsPrintable fm dir info) → row_of fm info ≡ some (printed_row info i)
  unfolding row_of store_path_digest store_path_name hash_type_of hash_bytes_of path_base
  row_of-eq info i =
      rw
        (
          object-found info i,
          i.nar_hash.printed,
          traverse_images (λ p. path_base fm (some p)) base info.references
              (All-map (IsPath fm dir) _ (λ p h. refl) info.references i.references),
          traverse_images (signature_row fm) columns info.sig
              (All-map (IsSignature fm dir) _ signature-columns info.sig i.signatures),
        )
        refl

  nar_hash-read :
      (h : Hash)
      → IsHash fm dir h
      → unless_empty fm.parse_hash
          (get_text (hash_column fm (some (fm.hash_type h)) (some (fm.hash_bytes h))))
        ≡ some h
  unfolding hash_column get_text
  nar_hash-read h i =
      rw (append-is_empty (fm.hash_type h) 58 (fm.hex (fm.hash_bytes h))) i.in_columns

  store_path-read :
      (info : NarInfo) (i : IsPrintable fm dir info)
      → fm.parse_store_path
          (join dir (fm.nix.digest i.object ++ (codes "-" ++ fm.nix.name i.object)))
        ≡ some info.store_path
  store_path-read info i =
      ap (λ x. fm.parse_store_path (join dir x)) (sym i.named)
      ∙ ap fm.parse_store_path (sym i.path.whole)
      ∙ i.path.parsed

  references-read :
      (ps : List StorePath)
      → All (IsPath fm dir) ps
      → traverse (λ r. fm.parse_store_path (join dir r)) (sort_texts (λ r. r) (map base ps))
        ≡ some (sort_texts base ps)
  references-read ps h =
      ap (traverse (λ r. fm.parse_store_path (join dir r))) (sort_texts-map base (λ r. r) ps)
      ∙ traverse_back (λ r. fm.parse_store_path (join dir r)) base (sort_texts base ps)
          (All-map (IsPath fm dir) _ path-read (sort_texts base ps)
            (All-sort_texts (IsPath fm dir) base ps h))

  signatures-read :
      (ss : List Bytes)
      → All (IsSignature fm dir) ss
      → traverse
          (λ (s : Bytes × Bytes). fm.parse_signature (s.0 ++ (codes ":" ++ s.1)))
          (sort_texts (λ (s : Bytes × Bytes). s.0) (map columns ss))
        ≡ some (sort_texts fm.signature_name ss)
  signatures-read ss h =
      ap (traverse (λ (s : Bytes × Bytes). fm.parse_signature (s.0 ++ (codes ":" ++ s.1))))
        (sort_texts-map columns (λ (s : Bytes × Bytes). s.0) ss)
      ∙ traverse_back (λ (s : Bytes × Bytes). fm.parse_signature (s.0 ++ (codes ":" ++ s.1)))
          columns (sort_texts fm.signature_name ss)
          (All-map (IsSignature fm dir) _ signature-read (sort_texts fm.signature_name ss)
            (All-sort_texts (IsSignature fm dir) fm.signature_name ss h))

  -- What is written of an info reads as its cached form, whatever the rest of the database.
  pub extract-printed_row :
      (info : NarInfo) (i : IsPrintable fm dir info) (db : Database) (more : List Bytes)
      → db.directories ≡ dir ∷ more
      → extract_nar_info_from_row fm db (printed_row info i) ≡ some (cached_form fm dir info)
  unfolding extract_nar_info_from_row
  extract-printed_row info i db more e =
      rw
        (
          e,
          extract_nar_info_from_row,
          store_path-read info i,
          i.compression,
          file_hash-read info.file_hash i.file_hash,
          nar_hash-read info.nar_hash i.nar_hash,
          references-read info.references i.references,
          deriver-read info.deriver i.deriver,
          signatures-read info.sig i.signatures,
          ca-read info.ca i.ca,
        )
        refl
