-- ===== src/UiCache/Index.antt =====
-- `cachedList` (uicache.go) and `serveIndex` (serve.go). How a row is read and what the nix module
-- makes of a store path are arguments; the sums over closures are in Closure.
use nixcached.Prelude.{
  ℕ, suc, Bool, false, List, [], ◌∷◌, Option, none, some, if◌then◌else◌, map, is_empty, Bytes,
}
use nixcached.Nix.{Nix}
use nixcached.NarUrl.{build_nar_url}
use nixcached.Upload.{NarInfo}
use nixcached.UiCache.{Row, Database, index_rows, has_more}

abbrev pub last_of {ℓ} : {A : Type ℓ} → A → List A → A
last_of x [] = x
last_of x (y ∷ ys) = last_of y ys

-- The data of the index page. `next_page` is empty where there is no further page.
pub record IndexPage : Type 0 where
  pub initial_crawl_complete : Bool
  pub cache_info : Bytes
  pub infos : List NarInfo
  pub query : Bytes
  pub next_page : Bytes

-- The results of a statement, up to the first row that cannot be read.
unfoldable pub read_rows : (Row → Option NarInfo) → List Row → Option (List NarInfo)
read_rows extract [] = some []
read_rows extract (row ∷ rows) = elim (extract row) [
  | none ↦ none
  | some info ↦ elim (read_rows extract rows) [ none ↦ none | some infos ↦ some (info ∷ infos) ]
]

module _ (nix : Nix) (extract : Row → Option NarInfo) (db : Database) where
  -- Whether there is more behind the last of these infos.
  unfoldable pub more_behind : Bytes → List NarInfo → Bool
  more_behind query [] = false
  more_behind query (info ∷ infos) = has_more db query (nix.digest (last_of info infos).store_path)

  unfoldable pub cached_list : Bytes → Bytes → Option (List NarInfo × Bool)
  cached_list query after = elim (read_rows extract (index_rows db query after)) [
    | none ↦ none
    | some infos ↦ some (infos, more_behind query infos)
  ]

  -- The link to an archive; the URL stays if there is none.
  unfoldable pub link : NarInfo → NarInfo
  link info = elim (build_nar_url nix (nix.digest info.store_path) info.compression) [
    | none ↦ info
    | some url ↦ record info { url = url }
  ]

  unfoldable pub next_link : List NarInfo → Bool → Bytes
  next_link [] more = []
  next_link (info ∷ infos) more = if more then nix.digest (last_of info infos).store_path else []

  -- `serveIndex`, from the cache info and from the answer of `signalDiscovery`.
  unfoldable pub serve_index : Option Bytes → Bool → Bytes → Bytes → Option IndexPage
  serve_index none crawled query after = none
  serve_index (some info) crawled query after = elim (cached_list query after) [
    | none ↦ none
    | some (infos, more) ↦ some (record {
      initial_crawl_complete = crawled;
      cache_info = info;
      infos = map link infos;
      query = query;
      next_page = next_link infos more;
    })
  ]

  -- A reader who follows the links to the next page, for so many pages at most.
  unfoldable pub crawl : ℕ → Bytes → Bool → Bytes → Bytes → Option (List (List NarInfo))
  crawl ℕ.zero info crawled query after = none
  crawl (suc fuel) info crawled query after = elim (serve_index (some info) crawled query after) [
    | none ↦ none
    | some page ↦
        let rest = crawl fuel info crawled query page.next_page in
        if is_empty page.next_page
        then some (page.infos ∷ [])
        else elim rest [ none ↦ none | some pages ↦ some (page.infos ∷ pages) ]
  ]
