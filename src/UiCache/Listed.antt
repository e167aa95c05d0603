-- ===== src/UiCache/Listed.antt =====
-- `List` of `uiCacheConn` and its iterator (uicache.go): the digests in the database, in order. Its
-- `Download` is that of the underlying store.
use nixcached.Prelude.{
  suc, ◌≡◌, refl, Bool, List, [], ◌∷◌, Option, none, some, map, length, count, Bytes,
}
use nixcached.HashPart.Order.{IsSorted}
use nixcached.Listing.{Next, digest, ended, drain}
use nixcached.Listing.Drain.{Gives, drain-rest}
use nixcached.UiCache.{Row, Database}
use nixcached.UiCache.Sorting.{sort_names, sort_names-IsSorted, sort_names-count}

-- The rows of the statement.
unfoldable pub cache_list : Database → List Bytes
cache_list db = sort_names (map (λ (row : Row). row.path_digest) db.objects)

-- `uiCacheIterator.NextDigest`, for steps of the statement that do not fail.
unfoldable pub cache_next : List Bytes → Next (List Bytes)
cache_next [] = ended
cache_next (d ∷ ds) = digest d ds

-- `uiCacheIterator.Close`, from the errors of both calls.
unfoldable pub cache_close : {E : Type 0} → Option E → Option E → Option E
cache_close (some e) cleared = some e
cache_close none cleared = cleared

unfoldable pub cache_download : {U D : Type 0} → (U → D) → U → D
cache_download store_download u = store_download u

-- A caller that asks the cache's iterator until its end gets the digest of every object in the
-- database, each as often as there are rows with it, in order, with one call more than there are.
pub drain-cache_next :
    (db : Database)
    → (ds : List Bytes) × (drain cache_next (suc (length (cache_list db))) (cache_list db)
        ≡ some ds)
      × IsSorted ds
      × ((p : Bytes → Bool)
          → count p ds ≡ count p (map (λ (row : Row). row.path_digest) db.objects))
unfolding cache_list cache_next
drain-cache_next db = (
  cache_list db,
  drain-rest cache_next (λ s. Unit) (λ s. s)
      (λ s f. elim s as (λ s. Gives (λ (s : List Bytes). Unit) (λ s. s) (cache_next s) s) [
        | [] ↦ refl
        | d ∷ ds ↦ (refl, tt)
      ])
      (suc (length (cache_list db))) (cache_list db) tt refl,
  sort_names-IsSorted (map (λ (row : Row). row.path_digest) db.objects),
  λ p. sort_names-count p (map (λ (row : Row). row.path_digest) db.objects),
)
