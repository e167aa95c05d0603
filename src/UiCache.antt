-- ===== src/UiCache.antt =====
-- The database behind the user interface (uicache.go and the statements in uicache/): its rows and
-- the order of the index page. SQLite and the nix module are not part of the repository; what the
-- statements mean is written out on lists of rows.
pub mod Sql
pub mod Object
pub mod Paths
pub mod Printable
pub mod RoundTrip
pub mod Update
pub mod Conn
pub mod Answers
pub mod Fill
pub mod Batches
pub mod Discover
pub mod Order
pub mod Closure
pub mod Turns
pub mod OwnRows
pub mod Sums
pub mod Sorting
pub mod Listed
pub mod Index
pub mod Rows
pub mod PageLists
pub mod Pages
use nixcached.Prelude.{
  ℕ, suc, ◌+◌, Bool, true, false, ◌&&◌, ◌||◌, not, List, [], ◌∷◌, ◌++◌, Option, none, some, leb,
  if◌then◌else◌, take, keep, is_empty, Bytes, same, has_prefix,
}
use nixcached.HashPart.{bytes_le}

-- A row of `store_objects`, with its rows of `store_object_references` and
-- `store_object_signatures`. A column that may be null is an `Option`.
pub record Row : Type 0 where
  pub path_digest : Bytes
  pub path_name : Bytes
  pub url : Bytes
  pub compression : Bytes
  pub file_hash_type : Option Bytes
  pub file_hash_bytes : Option Bytes
  pub file_size : Option ℕ
  pub nar_hash_type : Bytes
  pub nar_hash_bytes : Bytes
  pub nar_size : ℕ
  pub deriver : Option Bytes
  pub ca : Option Bytes
  pub references : List Bytes
  pub signatures : List (Bytes × Bytes)

pub record Database : Type 0 where
  -- the table `store`
  pub directories : List Bytes
  pub objects : List Row

-- `s < t` on texts.
unfoldable pub bytes_lt : Bytes → Bytes → Bool
unfolding bytes_le
bytes_lt s t = not (bytes_le t s)

-- `("path_name", "path_digest") > (name, digest)`
unfoldable pub is_after : Bytes → Bytes → Row → Bool
unfolding bytes_lt
is_after name digest row =
    bytes_lt name row.path_name || (same name row.path_name && bytes_lt digest row.path_digest)

-- `order by "path_name", "path_digest"`
unfoldable pub insert_row : Row → List Row → List Row
insert_row row [] = row ∷ []
insert_row row (r ∷ rows) =
    let behind = r ∷ insert_row row rows in
    if is_after row.path_name row.path_digest r then row ∷ r ∷ rows else behind

unfoldable pub in_order : List Row → List Row
in_order [] = []
in_order (row ∷ rows) = insert_row row (in_order rows)

-- `lower(s)`, on ASCII letters only
unfoldable pub lower_byte : ℕ → ℕ
lower_byte c = if leb 65 c && leb c 90 then 32 + c else c

unfoldable pub lower : Bytes → Bytes
unfolding lower_byte
lower [] = []
lower (c ∷ s) = lower_byte c ∷ lower s

-- `instr(s, sub)`, where zero is false
unfoldable pub instr : Bytes → Bytes → Bool
instr [] sub = has_prefix sub []
instr (c ∷ s) sub = has_prefix sub (c ∷ s) || instr s sub

-- The condition on the query.
unfoldable pub is_relevant : Bytes → Row → Bool
unfolding instr lower
is_relevant query row = is_empty query || instr (lower row.path_name) (lower query)

-- `select "path_name" from "store_objects" where "path_digest" = digest`, the empty text if there is none
unfoldable pub name_of : List Row → Bytes → Bytes
name_of [] digest = []
name_of (row ∷ rows) digest =
    if same row.path_digest digest then row.path_name else name_of rows digest

-- The condition on the page, which begins behind the object `after`.
unfoldable pub is_behind : List Row → Bytes → Row → Bool
is_behind rows after row = is_empty after || is_after (name_of rows after) after row

-- The rows of uicache/index.sql before its limit.
unfoldable pub rows_behind : Database → Bytes → Bytes → List Row
rows_behind db query after =
    keep (λ (row : Row). is_relevant query row && is_behind db.objects after row)
      (in_order db.objects)

abbrev pub page_size : ℕ
page_size = 100

unfoldable pub index_rows : Database → Bytes → Bytes → List Row
index_rows db query after = take page_size (rows_behind db query after)

-- Whether a row meets a condition, `exists(select 1 from … where …)`.
unfoldable pub any_row : (Row → Bool) → List Row → Bool
any_row p [] = false
any_row p (row ∷ rows) = p row || any_row p rows

-- uicache/has_more.sql
unfoldable pub has_more : Database → Bytes → Bytes → Bool
has_more db query after =
    any_row (λ (row : Row). is_relevant query row && is_behind db.objects after row) db.objects
