-- ===== src/UiCache/Discover.antt =====
-- `uiCacheConn.discover`: it ends, asks in batches, and finds what the store answers.
use nixcached.Prelude.{
  ℕ, zero, suc, ◌+◌, ◌≤◌, ◌<◌, ◌≡◌, refl, sym, ap, ◌∙◌, Bool, true, false, arith, List, [], ◌∷◌,
  length, Option, none, some, some_inj, if_rule, inl, inr, ◌⊎◌, All, Bytes,
}
use nixcached.UiCache.{Database}
use nixcached.UiCache.Sql.{Formats}
use nixcached.UiCache.Conn.{
  Upstream, Discovered, add_request, is_known, batch_limit, cache_info, fill, save_batch,
  discover_loop, discover_in, discover,
}
use nixcached.UiCache.Fill.{Any, IsIn, fill-IsFill, fill_progress, fill_tracked}
use nixcached.UiCache.Batches.{CanSave, known-save_batch, save_batch_saved}

-- What `discover` returns, from a number of digests on.
pub record Ends (ds : List Bytes) (n : ℕ) (o : Option Discovered) : Type 0 where
  pub result : Discovered
  pub returned : o ≡ some result
  pub counted : result.count ≤ n + length ds
  pub batches : All (λ b. length b ≤ batch_limit) result.requests

module _ (fm : Formats) (up : Upstream) (dir : Bytes) where
  Ends-more :
      (batch rest ds : List Bytes) (m n : ℕ) (o : Option Discovered)
      → length batch ≤ batch_limit
      → m + length rest ≤ n + length ds
      → Ends rest m o
      → Ends ds n (add_request batch o)
  Ends-more batch rest ds m n o b c e = record {
    result = record e.result { requests = batch ∷ e.result.requests };
    returned = ap (add_request batch) e.returned;
    counted = omega (arith, e.counted, c);
    batches = (b, e.batches);
  }

  -- A digest that every batch with it answers.
  abbrev pub IsAnswered : Bytes → Type 0
  IsAnswered d = (ds : List Bytes) → IsIn d ds → Any (CanSave fm up dir d) (up.batch ds)

  module _ (cancelled : ℕ → Bool) where
    -- To show something of the outer loop, for the batch of this turn.
    loop_rule :
        (P : Option Discovered → Type 0) (fuel : ℕ) (ds : List Bytes) (n : ℕ) (db : Database)
        → (cancelled (fill fm up db ds [] n).count ≡ true
            → P (some (record { count = (fill fm up db ds [] n).count; db = db; requests = [] })))
        → ((fill fm up db ds [] n).ended ≡ true
            → P (
                some (record {
                  count = (fill fm up db ds [] n).count;
                  db = save_batch fm up dir (up.batch (fill fm up db ds [] n).batch) db;
                  requests = (fill fm up db ds [] n).batch ∷ [];
                })))
        → ((fill fm up db ds [] n).ended ≡ false
            → P (
                add_request (fill fm up db ds [] n).batch (
                  discover_loop fm up cancelled dir fuel
                    (fill fm up db ds [] n).rest
                    (fill fm up db ds [] n).count
                    (save_batch fm up dir (up.batch (fill fm up db ds [] n).batch) db))))
        → P (discover_loop fm up cancelled dir (suc fuel) ds n db)
    unfolding discover_loop
    loop_rule P fuel ds n db stopped last more =
        if_rule P (cancelled (fill fm up db ds [] n).count) _ _ stopped
          (λ _. if_rule P (fill fm up db ds [] n).ended _ _ last more)

    loop-Ends :
        (fuel : ℕ) (ds : List Bytes) (n : ℕ) (db : Database)
        → length ds < fuel
        → Ends ds n (discover_loop fm up cancelled dir fuel ds n db)
    loop-Ends zero ds n db h = absurd (omega (arith, h))
    loop-Ends (suc fuel) ds n db h =
        let f = fill-IsFill fm up db ds [] n (omega arith) in
        loop_rule (Ends ds n) fuel ds n db
          (λ _. record {
            result = _;
            returned = refl;
            counted = omega (arith, f.count);
            batches = tt;
          })
          (λ _. record {
            result = _;
            returned = refl;
            counted = omega (arith, f.count);
            batches = (f.bound, tt);
          })
          (λ e.
            Ends-more (fill fm up db ds [] n).batch (fill fm up db ds [] n).rest ds
              (fill fm up db ds [] n).count n _ f.bound (omega (arith, f.count))
              (loop-Ends fuel _ _ _
                (omega (arith, h, fill_progress fm up db ds [] n (omega arith) e))))

    -- What a call that is not cancelled returns.
    abbrev IsDone : Bytes → List Bytes → ℕ → Option Discovered → Type 0
    IsDone k ds n o =
        (r : Discovered) → o ≡ some r → (r.count ≡ n + length ds) × (is_known r.db k ≡ true)

    IsDone-one :
        (k : Bytes) (ds : List Bytes) (n : ℕ) (r : Discovered)
        → r.count ≡ n + length ds
        → is_known r.db k ≡ true
        → IsDone k ds n (some r)
    IsDone-one k ds n r c i q e =
        let p = some_inj e in
        (
          ap (λ (x : Discovered). x.count) (sym p) ∙ c,
          ap (λ (x : Discovered). is_known x.db k) (sym p) ∙ i,
        )

    IsDone-more :
        (k : Bytes) (batch rest ds : List Bytes) (m n : ℕ) (o : Option Discovered)
        → m + length rest ≡ n + length ds
        → IsDone k rest m o
        → IsDone k ds n (add_request batch o)
    IsDone-more k batch rest ds m n none c h r e = cc e
    IsDone-more k batch rest ds m n (some q) c h r e =
        let (a, b) = h q refl in
        IsDone-one k ds n (record q { requests = batch ∷ q.requests }) (a ∙ c) b r e

    -- A digest that is known or to come is known after the batch, or still to come.
    batch_tracked :
        (k : Bytes) (ds : List Bytes) (n : ℕ) (db : Database)
        → up.can_read db k ≡ true
        → up.can_write db ≡ true
        → IsAnswered k
        → (is_known db k ≡ true) ⊎ IsIn k ds
        → (is_known (save_batch fm up dir (up.batch (fill fm up db ds [] n).batch) db) k ≡ true)
          ⊎ IsIn k (fill fm up db ds [] n).rest
    batch_tracked k ds n db r w a (inl e) =
        inl (known-save_batch fm up dir (up.batch (fill fm up db ds [] n).batch) db k e)
    batch_tracked k ds n db r w a (inr i) = elim (fill_tracked fm up db k ds [] n r (inl i)) [
      | inl j ↦ inl (
          save_batch_saved fm up dir (up.batch (fill fm up db ds [] n).batch) db k w
            (a (fill fm up db ds [] n).batch j))
      | inr (inl e) ↦
          inl (known-save_batch fm up dir (up.batch (fill fm up db ds [] n).batch) db k e)
      | inr (inr j) ↦ inr j
    ]

    none_left :
        (k : Bytes) (b : Bool) (rest : List Bytes) → rest ≡ [] → (b ≡ true) ⊎ IsIn k rest → b ≡ true
    none_left k b rest e (inl h) = h
    none_left k b rest e (inr i) = elim (rw e at i) [ ]

    loop-IsDone :
        (k : Bytes) (fuel : ℕ) (ds : List Bytes) (n : ℕ) (db : Database)
        → ((m : ℕ) → cancelled m ≡ false)
        → ((db' : Database) → up.can_read db' k ≡ true)
        → ((db' : Database) → up.can_write db' ≡ true)
        → IsAnswered k
        → (is_known db k ≡ true) ⊎ IsIn k ds
        → IsDone k ds n (discover_loop fm up cancelled dir fuel ds n db)
    unfolding discover_loop
    loop-IsDone k zero ds n db c r w a t = λ q e. cc e
    loop-IsDone k (suc fuel) ds n db c r w a t =
        let f = fill-IsFill fm up db ds [] n (omega arith) in
        loop_rule (IsDone k ds n) fuel ds n db
          (λ e. absurd (cc (e, c (fill fm up db ds [] n).count)))
          (λ e. IsDone-one k ds n _ (omega (arith, f.count, ap length (f.end_ e))) (
            none_left k _ (fill fm up db ds [] n).rest (f.end_ e)
              (batch_tracked k ds n db (r db) (w db) a t)))
          (λ e.
            IsDone-more k (fill fm up db ds [] n).batch (fill fm up db ds [] n).rest ds
              (fill fm up db ds [] n).count n _ f.count
              (loop-IsDone k fuel _ _ _ c r w a (batch_tracked k ds n db (r db) (w db) a t)))

Ends-none :
    (digests : List Bytes) (db : Database)
    → Ends digests 0 (some (record { count = 0; db = db; requests = [] }))
Ends-none digests db = record { result = _; returned = refl; counted = omega arith; batches = tt }

discover_in-Ends :
    (fm : Formats) (up : Upstream) (cancelled : ℕ → Bool) (digests : List Bytes)
    (c : Option Bytes × Database)
    → Ends digests 0 (discover_in fm up cancelled digests c)
unfolding discover_in
discover_in-Ends fm up cancelled digests (none, db) = Ends-none digests db
discover_in-Ends fm up cancelled digests (some dir, db) =
    loop-Ends fm up dir cancelled (suc (length digests)) digests 0 db (omega arith)

-- If the iterator comes to an end and the calls of the store and of the database return, discovery
-- ends, whatever these give and whichever of them fail: there is a result, it counts at most the
-- digests of the iterator, and no batch is larger than the limit.
pub discover-Ends :
    (fm : Formats) (up : Upstream) (cancelled : ℕ → Bool) (digests : List Bytes) (db : Database)
    → Ends digests 0 (discover fm up cancelled digests db)
unfolding discover
discover-Ends fm up cancelled digests db =
    discover_in-Ends fm up cancelled digests (cache_info fm up db)

-- When discovery is not cancelled, the store directory is known, and the database can be written
-- and can be read at a digest: if the iterator gives that digest and every batch with it is answered with an info that can be saved under it, the
-- digest is in the database afterwards, whatever becomes of the other digests. All digests are counted.
pub discover_finds :
    (fm : Formats) (up : Upstream) (dir : Bytes) (cancelled : ℕ → Bool) (digests : List Bytes)
    (db db0 : Database) (k : Bytes)
    → cache_info fm up db ≡ (some dir, db0)
    → ((m : ℕ) → cancelled m ≡ false)
    → ((db' : Database) → up.can_read db' k ≡ true)
    → ((db' : Database) → up.can_write db' ≡ true)
    → IsIn k digests
    → IsAnswered fm up dir k
    → (r : Discovered) × (discover fm up cancelled digests db ≡ some r)
      × (r.count ≡ length digests)
      × (is_known r.db k ≡ true)
unfolding discover discover_in
discover_finds fm up dir cancelled digests db db0 k e c r w i a =
    let s = discover-Ends fm up cancelled digests db in
    let started : discover fm up cancelled digests db
        ≡ discover_loop fm up cancelled dir (suc (length digests)) digests 0 db0 =
      ap (discover_in fm up cancelled digests) e in
    let (n, found) =
      loop-IsDone fm up dir cancelled k (suc (length digests)) digests 0 db0 c r w a (inr i)
        s.result (sym started ∙ s.returned) in
    (s.result, s.returned, omega (arith, n), found)
