-- ===== src/HashPart/Total.antt =====
-- The order of Go strings is total.
use nixcached.Prelude.{◌≡◌, refl, true, false, [], ◌∷◌, arith, Bytes}
use nixcached.HashPart.{bytes_le}

pub bytes_le_total : (s t : Bytes) → bytes_le s t ≡ false → bytes_le t s ≡ true
unfolding bytes_le
bytes_le_total [] t h = cc h
bytes_le_total (c ∷ s) [] h = refl
bytes_le_total (c ∷ s) (d ∷ t) h = ground (arith, bytes_le_total s t)

pub bytes_le_antisym : (s t : Bytes) → bytes_le s t ≡ true → bytes_le t s ≡ true → s ≡ t
unfolding bytes_le
bytes_le_antisym [] [] h k = refl
bytes_le_antisym [] (d ∷ t) h k = cc k
bytes_le_antisym (c ∷ s) [] h k = cc h
bytes_le_antisym (c ∷ s) (d ∷ t) h k = ground (arith, bytes_le_antisym s t)
