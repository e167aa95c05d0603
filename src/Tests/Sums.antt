-- ===== src/Tests/Sums.antt =====
-- Examples of the sums on the index page.
use nixcached.Prelude.{◌+◌, ◌≡◌, refl, true, List, [], ◌∷◌, some, codes, same, contains_byte}
use nixcached.UiCache.{Row, Database}
use nixcached.UiCache.Sql.{base, strip_slashes, after_slash, is_member, store_path_digest}
use nixcached.UiCache.Closure.{
  Requisite, is_in, is_other, fresh, references_of, first_rows, rows_of, next_rows, recur,
  requisites, sum_at, size_of, sum_of, closure_nar_size, closure_file_size,
}
use nixcached.UiCache.Sums.{direct_sum, closure_sums}
use nixcached.Tests.UiCache.{dir, formats, stored}

-- An object that refers to itself and to a second one, which refers to a third.
abbrev first : Row
first = record stored { references = codes "aa-x" ∷ codes "ab-y" ∷ [] }

abbrev chain : Database
chain = record {
  directories = dir ∷ [];
  objects =
      first
      ∷ record stored {
        path_digest = codes "ab";
        path_name = codes "y";
        nar_size = 5;
        references = codes "ac-z" ∷ [];
      }
      ∷ record stored {
        path_digest = codes "ac";
        path_name = codes "z";
        nar_size = 7;
        references = [];
      }
      ∷ [];
}

on_page : is_member (codes "aa") (codes "aa" ∷ []) ≡ true
unfolding is_member same
on_page = refl

closure_sums_example :
    (reqs : List Requisite) × (requisites formats chain (codes "aa" ∷ []) ≡ some reqs)
    × (closure_nar_size formats chain reqs first
        ≡ 3 + direct_sum formats (λ (r : Row). r.nar_size) chain (codes "aa"))
    × (closure_file_size formats chain reqs first ≡ 0)
closure_sums_example = closure_sums formats chain (codes "aa" ∷ []) first on_page

-- The third object is in the closure of the first, and its 7 bytes are not in the sum.
closure_of_first :
    (requisites formats chain (codes "aa" ∷ [])
      ≡ some ((codes "ab", codes "ac-z") ∷ (codes "aa", codes "ab-y") ∷ []))
    × (closure_nar_size formats chain
          ((codes "ab", codes "ac-z") ∷ (codes "aa", codes "ab-y") ∷ [])
          first
        ≡ 8)
unfolding requisites recur next_rows rows_of first_rows references_of is_other fresh is_in is_member
    same base strip_slashes after_slash store_path_digest closure_nar_size sum_of size_of sum_at
    contains_byte
closure_of_first = (refl, refl)
