-- ===== src/Upload/Bucket.antt =====
-- What a reader of the bucket sees after some writes: under each key the content of the last
-- successful write, and before any what was there at the start.
use nixcached.Prelude.{
  ◌≡◌, ◌≢◌, refl, Bool, true, false, ◌&&◌, List, [], ◌∷◌, ◌++◌, Option, some, arith, if◌then◌else◌,
  Bytes, same, same_refl, same_sound,
}
use nixcached.Upload.{Event, put}

abbrev pub Store : Type 0
Store = Bytes → Option Bytes

unfoldable pub apply_event : Event → Store → Store
apply_event (put key content mime ok) s k = if ok && same key k then some content else s k

unfoldable pub visible : List Event → Store → Store
unfolding apply_event
visible [] s = s
visible (e ∷ es) s = visible es (apply_event e s)

pub visible-append :
    (es fs : List Event) (s : Store) → visible (es ++ fs) s ≡ visible fs (visible es s)
unfolding visible
visible-append [] fs s = refl
visible-append (e ∷ es) fs s = visible-append es fs (apply_event e s)

pub apply_event-other :
    (key content mime k : Bytes) (ok : Bool) (s : Store)
    → key ≢ k
    → apply_event (put key content mime ok) s k ≡ s k
unfolding apply_event
apply_event-other key content mime k ok s n = ground (arith, same_sound key k)

pub apply_event-same :
    (key content mime : Bytes) (s : Store)
    → apply_event (put key content mime true) s key ≡ some content
unfolding apply_event
apply_event-same key content mime s = ground (arith, same_refl key)

pub apply_event-failed :
    (key content mime k : Bytes) (s : Store) → apply_event (put key content mime false) s k ≡ s k
unfolding apply_event
apply_event-failed key content mime k s = refl

-- The last write counts.
pub visible-snoc :
    (es : List Event) (e : Event) (s : Store)
    → visible (es ++ e ∷ []) s ≡ apply_event e (visible es s)
unfolding visible
visible-snoc [] e s = refl
visible-snoc (x ∷ es) e s = visible-snoc es e (apply_event x s)
