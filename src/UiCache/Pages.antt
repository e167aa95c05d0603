-- ===== src/UiCache/Pages.antt =====
-- The pages of the index, one after the other.
use nixcached.Prelude.{
  ℕ, zero, suc, ◌+◌, ◌≤◌, ◌<◌, ◌≡◌, refl, sym, ap, ◌∙◌, Bool, false, not, arith, List, [], ◌∷◌,
  ◌++◌, append_assoc, append-nil, Option, some, if◌then◌else◌, inl, inr, All, map, length, take,
  drop, take-append-drop, length-append, concat, is_empty, Bytes,
}
use nixcached.Nix.{Nix}
use nixcached.Upload.{NarInfo}
use nixcached.UiCache.{Row, Database, page_size, index_rows, rows_behind}
use nixcached.UiCache.Order.{IsDistinct}
use nixcached.UiCache.Rows.{
  matching, matching-All, rows_behind-nil, rows_behind-row, has_more-rows_behind,
}
use nixcached.UiCache.Index.{
  last_of, read_rows, more_behind, cached_list, link, next_link, IndexPage, serve_index, crawl,
}
use nixcached.UiCache.PageLists.{
  split_last, last_of-map, map-append_rows, map-map, length-take_le, All-split, List-cases,
  All-last_of,
}

module _ (nix : Nix) (extract : Row → Option NarInfo) (db : Database) (view : Row → NarInfo)
    (distinct : IsDistinct db.objects) where
  -- A row is read as its view, whose store path has the row's digest.
  abbrev pub Reads : Row → Type 0
  Reads row =
      (extract row ≡ some (view row))
      × (nix.digest (view row).store_path ≡ row.path_digest)
      × (is_empty row.path_digest ≡ false)

  read_rows-Reads :
      (rows : List Row) → All Reads rows → read_rows extract rows ≡ some (map view rows)
  unfolding read_rows
  read_rows-Reads [] h = refl
  read_rows-Reads (row ∷ rows) ((e, d, n), h) = rw (e, read_rows, read_rows-Reads rows h) refl

  -- The digest that stands for the last row of a page.
  last_digest :
      (x : Row) (xs : List Row)
      → All Reads (x ∷ xs)
      → nix.digest (last_of (view x) (map view xs)).store_path ≡ (last_of x xs).path_digest
  last_digest x xs h =
      let (r, d, n) = All-last_of Reads x xs h in
      ap (λ (i : NarInfo). nix.digest i.store_path) (last_of-map view x xs) ∙ d

  -- Behind the last row of a page stands what the page has left out.
  behind_page :
      (query : Bytes) (front rest : List Row) (x : Row) (xs : List Row)
      → matching db query ≡ front ++ ((x ∷ xs) ++ rest)
      → is_empty (last_of x xs).path_digest ≡ false
      → rows_behind db query (last_of x xs).path_digest ≡ rest
  behind_page query front rest x xs e n =
      let (init, s) = split_last x xs in
      rows_behind-row db query (front ++ init) rest (last_of x xs) distinct n (
        e
        ∙ ap (λ l. front ++ (l ++ rest)) s
        ∙ ap (λ l. front ++ l) (append_assoc init (last_of x xs ∷ []) rest)
        ∙ sym (append_assoc front init (last_of x xs ∷ rest)))

  module _ (info : Bytes) (crawled : Bool) (query : Bytes) where
    -- What the page shows of a row.
    abbrev pub shown : Row → NarInfo
    shown row = link nix extract db (view row)

    abbrev page_of : List Row → Bytes → IndexPage
    page_of rows next = record {
      initial_crawl_complete = crawled;
      cache_info = info;
      infos = map (link nix extract db) (map view rows);
      query = query;
      next_page = next;
    }

    empty_page :
        (after : Bytes)
        → rows_behind db query after ≡ []
        → serve_index nix extract db (some info) crawled query after ≡ some (page_of [] [])
    unfolding serve_index cached_list index_rows more_behind next_link read_rows
    empty_page after e = rw (e, serve_index) refl

    more-eq :
        (front tail : List Row) (x : Row) (xs : List Row)
        → matching db query ≡ front ++ ((x ∷ xs) ++ tail)
        → All Reads (x ∷ xs)
        → more_behind nix extract db query (map view (x ∷ xs)) ≡ not (is_empty tail)
    unfolding more_behind
    more-eq front tail x xs m h =
        let (r, d, n) = All-last_of Reads x xs h in
        rw (last_digest x xs h) (
          has_more-rows_behind db query (last_of x xs).path_digest
          ∙ ap (λ l. not (is_empty l)) (behind_page query front tail x xs m n))

    full_page :
        (front rest tail : List Row) (x : Row) (xs : List Row) (after : Bytes)
        → rows_behind db query after ≡ rest
        → take page_size rest ≡ x ∷ xs
        → matching db query ≡ front ++ ((x ∷ xs) ++ tail)
        → All Reads (x ∷ xs)
        → serve_index nix extract db (some info) crawled query after
          ≡ some (page_of (x ∷ xs) (if not (is_empty tail) then (last_of x xs).path_digest else []))
    unfolding serve_index cached_list index_rows next_link
    full_page front rest tail x xs after b t m h =
        rw
          (
            b,
            t,
            read_rows-Reads (x ∷ xs) h,
            serve_index,
            more-eq front tail x xs m h,
            last_digest x xs h,
          )
          refl

    shorter : (rows : List Row) → length (map (link nix extract db) (map view rows)) ≡ length rows
    shorter [] = refl
    shorter (row ∷ rows) = ap suc (shorter rows)

    -- The pages that show these rows.
    abbrev Follows : ℕ → Bytes → List Row → Type 0
    Follows fuel after rest =
        (pages : List (List NarInfo)) × (crawl nix extract db fuel info crawled query after
          ≡ some pages)
        × (concat pages ≡ map shown rest)
        × All (λ p. length p ≤ 100) pages

    last_page :
        (fuel : ℕ) (after : Bytes) (rows rest : List Row)
        → rows ≡ rest
        → length rows ≤ 100
        → serve_index nix extract db (some info) crawled query after ≡ some (page_of rows [])
        → Follows (suc fuel) after rest
    unfolding crawl
    last_page fuel after rows rest r l e = (
      map (link nix extract db) (map view rows) ∷ [],
      rw (e, crawl) refl,
      append-nil (map (link nix extract db) (map view rows))
          ∙ map-map view (link nix extract db) rows
          ∙ ap (map shown) r,
      (rw (shorter rows) l, tt),
    )

    more_pages :
        (fuel : ℕ) (after next : Bytes) (rows tail rest : List Row)
        → rows ++ tail ≡ rest
        → length rows ≤ 100
        → is_empty next ≡ false
        → serve_index nix extract db (some info) crawled query after ≡ some (page_of rows next)
        → Follows fuel next tail
        → Follows (suc fuel) after rest
    unfolding crawl
    more_pages fuel after next rows tail rest r l n e (pages, c, shown_all, short) = (
      map (link nix extract db) (map view rows) ∷ pages,
      rw (e, crawl, n, c) refl,
      ap (λ k. map (link nix extract db) (map view rows) ++ k) shown_all
          ∙ ap (λ k. k ++ map shown tail) (map-map view (link nix extract db) rows)
          ∙ sym (map-append_rows shown rows tail)
          ∙ ap (map shown) r,
      (rw (shorter rows) l, short),
    )

    follow :
        (fuel : ℕ) (front rest : List Row) (after : Bytes)
        → matching db query ≡ front ++ rest
        → rows_behind db query after ≡ rest
        → All Reads rest
        → length rest < fuel
        → Follows fuel after rest
    follow zero front rest after m b h lt = absurd (omega arith)
    follow (suc fuel) front [] after m b h lt =
        last_page fuel after [] [] refl (omega arith) (empty_page after b)
    follow (suc fuel) front (r ∷ rs) after m b h lt =
        let xs = take 99 rs in
        let tail = drop 99 rs in
        let whole : (r ∷ xs) ++ tail ≡ r ∷ rs = ap (λ l. r ∷ l) (take-append-drop 99 rs) in
        let short : length (r ∷ xs) ≤ 100 = omega (arith, length-take_le 99 rs) in
        let sizes : length xs + length tail ≡ length rs =
          sym (length-append xs tail) ∙ ap length (take-append-drop 99 rs) in
        let placed : matching db query ≡ front ++ ((r ∷ xs) ++ tail) =
          m ∙ ap (λ l. front ++ l) (sym whole) in
        let (read, later) = All-split Reads (r ∷ xs) tail (r ∷ rs) whole h in
        let page = full_page front (r ∷ rs) tail r xs after b refl placed read in
        let (e, d, n) = All-last_of Reads r xs read in
        elim (List-cases tail) [
          | inl t ↦
              last_page fuel after (r ∷ xs) (r ∷ rs)
                (sym (append-nil (r ∷ xs)) ∙ ap (λ l. (r ∷ xs) ++ l) (sym t) ∙ whole) short
                (rw t at page)
          | inr (y, ys, t) ↦
              more_pages fuel after (last_of r xs).path_digest (r ∷ xs) tail (r ∷ rs) whole short n
                (rw t at page)
                (follow fuel (front ++ (r ∷ xs)) tail (last_of r xs).path_digest
                  (placed ∙ sym (append_assoc front (r ∷ xs) tail))
                  (behind_page query front tail r xs placed n) later (omega arith))
        ]

    -- A reader who starts on the first page and follows the links to the next one comes to an end
    -- after as many pages as there are objects, and one more, at most. The pages show each object
    -- whose name matches the query once, in the order of name and digest, and 100 at most on each.
    -- The rows must have different digests, none of them empty, and be readable as their views.
    pub crawl_complete :
        All Reads db.objects
        → (pages : List (List NarInfo)) × (crawl nix extract db
              (suc (length (matching db query)))
              info
              crawled
              query
              []
            ≡ some pages)
          × (concat pages ≡ map shown (matching db query))
          × All (λ p. length p ≤ 100) pages
    crawl_complete h =
        follow (suc (length (matching db query))) [] (matching db query) [] refl
          (rows_behind-nil db query) (matching-All Reads db query h) (omega arith)
