-- ===== src/UiCache/Sql.antt =====
-- The functions that `prepareUICacheConn` registers, the statements that write and read one object
-- (uicache/upsert_object.sql, narinfo.sql and the view in repeatable.sql), the checks of
-- uicache/schema.sql, and `extractNARInfoFromRow` (uicache.go).
use nixcached.Prelude.{
  ℕ, Bool, true, false, ◌&&◌, ◌||◌, not, List, [], ◌∷◌, Option, none, some, ◌>>=◌, leb, ◌==◌,
  if◌then◌else◌, map, is_empty, Bytes, codes, same, contains_byte, cut_prefix,
}
use nixcached.Nix.{Nix, StorePath}
use nixcached.Compression.{Compression}
use nixcached.HashPart.{bytes_le}
use nixcached.Upload.{Hash}
use nixcached.UiCache.{Row}

-- What they use of the nix module and of SQLite. A signature and a content address are their texts.
pub record Formats : Type 0 where
  pub nix : Nix
  pub parse_store_path : Bytes → Option StorePath
  pub parse_hash : Bytes → Option Hash
  pub hash_type : Hash → Bytes
  pub hash_bytes : Hash → Bytes
  pub hash_text : Hash → Bytes
  pub parse_signature : Bytes → Option Bytes
  pub signature_name : Bytes → Bytes
  pub parse_ca : Bytes → Option Bytes
  -- `nix.CompressionType(s)`, if it is known, and the text of a compression
  pub known_compression : Bytes → Option Compression
  pub compression_text : Compression → Bytes
  -- `hex`
  pub hex : Bytes → Bytes

-- `path.Base`: the last element, without the slashes behind it.
unfoldable pub strip_slashes : Bytes → Bytes
strip_slashes [] = []
strip_slashes (c ∷ s) = elim (strip_slashes s) [
  | [] ↦ if c == 47 then [] else c ∷ []
  | d ∷ t ↦ c ∷ d ∷ t
]

unfoldable pub after_slash : Bytes → Bytes
after_slash [] = []
after_slash (c ∷ s) =
    let rest = after_slash s in if contains_byte 47 s then rest else if c == 47 then s else c ∷ s

unfoldable pub base : Bytes → Bytes
base [] = codes "."
base (c ∷ s) = elim (strip_slashes (c ∷ s)) [ [] ↦ codes "/" | d ∷ t ↦ after_slash (d ∷ t) ]

-- The characters of digests and of names.
unfoldable pub is_digest_char : ℕ → Bool
is_digest_char c =
    (leb 48 c && leb c 57)
    || (leb 97 c && leb c 100)
    || (leb 102 c && leb c 110)
    || (leb 112 c && leb c 115)
    || (leb 118 c && leb c 122)

unfoldable pub is_name_char : ℕ → Bool
is_name_char c =
    c == 45
    || c == 43
    || c == 46
    || c == 95
    || c == 63
    || c == 61
    || (leb 48 c && leb c 57)
    || (leb 97 c && leb c 122)
    || (leb 65 c && leb c 90)

abbrev pub all_bytes : (ℕ → Bool) → Bytes → Bool
all_bytes p [] = true
all_bytes p (c ∷ s) = p c && all_bytes p s

abbrev pub is_word : (ℕ → Bool) → Bytes → Bool
is_word p s = not (is_empty s) && all_bytes p s

-- `^[digest]+-[name]+$`. A dash is no character of digests.
unfoldable pub is_object_name : Bytes → Bool
unfolding is_digest_char is_name_char
is_object_name [] = false
is_object_name (c ∷ []) = false
is_object_name (c ∷ d ∷ s) =
    is_digest_char c && (if d == 45 then is_word is_name_char s else is_object_name (d ∷ s))

-- The primary key of a table that belongs to one object.
unfoldable pub is_member : Bytes → List Bytes → Bool
is_member s [] = false
is_member s (t ∷ ts) = same s t || is_member s ts

unfoldable pub is_unique : List Bytes → Bool
unfolding is_member
is_unique [] = true
is_unique (s ∷ ss) = not (is_member s ss) && is_unique ss

abbrev pub all_texts : (Bytes → Bool) → List Bytes → Bool
all_texts p [] = true
all_texts p (s ∷ ss) = p s && all_texts p ss

-- A check on a column that may be null.
abbrev pub null_or : (Bytes → Bool) → Option Bytes → Bool
null_or p none = true
null_or p (some s) = p s

abbrev pub is_filled : Bytes → Bool
is_filled s = not (is_empty s)

-- The checks of the schema. The numbers are not negative by their type.
unfoldable pub is_valid_row : Row → Bool
unfolding is_object_name is_unique
is_valid_row row =
    is_word is_digest_char row.path_digest
    && is_word is_name_char row.path_name
    && null_or is_filled row.file_hash_type
    && null_or is_filled row.file_hash_bytes
    && is_filled row.nar_hash_type
    && is_filled row.nar_hash_bytes
    && null_or is_object_name row.deriver
    && all_texts is_object_name row.references
    && is_unique row.references
    && all_texts (λ name. is_filled name && not (contains_byte 58 name))
        (map (λ (s : Bytes × Bytes). s.0) row.signatures)
    && all_texts is_filled (map (λ (s : Bytes × Bytes). s.1) row.signatures)
    && is_unique (map (λ (s : Bytes × Bytes). s.0) row.signatures)

-- `insert … on conflict ("path_digest") do update`
unfoldable pub put_row : Row → List Row → List Row
put_row row [] = row ∷ []
put_row row (r ∷ rows) =
    let rest = r ∷ put_row row rows in
    if same r.path_digest row.path_digest then row ∷ rows else rest

unfoldable pub find_row : Bytes → List Row → Option Row
find_row digest [] = none
find_row digest (r ∷ rows) = if same r.path_digest digest then some r else find_row digest rows

abbrev pub traverse : {A B : Type 0} → (A → Option B) → List A → Option (List B)
traverse f [] = some []
traverse f (x ∷ xs) = f x >>= λ y. traverse f xs >>= λ ys. some (y ∷ ys)

-- `order by` on one text column
unfoldable pub insert_text : {A : Type 0} → (A → Bytes) → A → List A → List A
insert_text key x [] = x ∷ []
insert_text key x (y ∷ ys) =
    let rest = y ∷ insert_text key x ys in if bytes_le (key x) (key y) then x ∷ y ∷ ys else rest

unfoldable pub sort_texts : {A : Type 0} → (A → Bytes) → List A → List A
unfolding insert_text
sort_texts key [] = []
sort_texts key (x ∷ xs) = insert_text key x (sort_texts key xs)

-- The registered function `md5`, from the sum of crypto/md5.
unfoldable pub md5_function : (Bytes → Bytes) → Option Bytes → Option Bytes
md5_function sum value = value >>= λ s. some (sum s)

-- `prepareUICacheConn`, from the errors of the pragma and of the registration of refunc.
unfoldable pub prepare_conn : {E : Type 0} → Option E → Option E → Option E
prepare_conn (some e) registered = some e
prepare_conn none registered = registered

module _ (fm : Formats) where
  -- The registered functions. A null argument gives null, and so does a text that is refused.
  unfoldable pub path_base : Option Bytes → Option Bytes
  unfolding base
  path_base value = value >>= λ s. some (base s)

  unfoldable pub store_path_digest : Option Bytes → Option Bytes
  unfolding base
  store_path_digest value = do
    s ← value
    p ← fm.nix.object fm.nix.default_dir (base s)
    some (fm.nix.digest p)

  unfoldable pub store_path_name : Option Bytes → Option Bytes
  unfolding base
  store_path_name value = do
    s ← value
    p ← fm.nix.object fm.nix.default_dir (base s)
    some (fm.nix.name p)

  unfoldable pub hash_type_of : Option Bytes → Option Bytes
  hash_type_of value = do s ← value; h ← fm.parse_hash s; some (fm.hash_type h)

  unfoldable pub hash_bytes_of : Option Bytes → Option Bytes
  hash_bytes_of value = do s ← value; h ← fm.parse_hash s; some (fm.hash_bytes h)

  unfoldable pub signature_name_of : Option Bytes → Option Bytes
  signature_name_of value = do s ← value; sig ← fm.parse_signature s; some (fm.signature_name sig)

  unfoldable pub signature_data_of : Option Bytes → Option Bytes
  signature_data_of value = do
    s ← value
    sig ← fm.parse_signature s
    rest ← cut_prefix (fm.signature_name sig) sig
    cut_prefix (codes ":") rest
