-- ===== src/HashTable/Tests.antt =====
-- The theorems of HashTable at a table of numbers in two buckets, where equal is equal up to the tens.
use seven_deadly_syns.Prelude.{
  ℕ, ◌%◌, ◌<◌, ◌≡◌, refl, Bool, ◌==◌, if◌then◌else◌, none, some, [], ◌∷◌, length, arith,
}
use mathlib.Core.List.{Perm}
use seven_deadly_syns.Queue.Spec
use seven_deadly_syns.HashTable.{HashTable, bucket_search, get_element, remove_element, add}
use seven_deadly_syns.HashTable.Buckets.{or_else}
use seven_deadly_syns.HashTable.Lookup.{elements, IsValid, hash_table_lem}
use seven_deadly_syns.HashTable.Iterate.{iterate, iterate-elements}

abbrev last_digit : ℕ → ℕ
last_digit n = n % 10

abbrev same_number : ℕ → ℕ → Bool
same_number m n = m == n

abbrev two_buckets : HashTable ℕ
two_buckets = record { table = (12 ∷ 4 ∷ 22 ∷ []) ∷ (7 ∷ []) ∷ []; tablesize = 2 }

two_buckets-IsValid : IsValid last_digit same_number two_buckets
two_buckets-IsValid = record {
  sized = refl;
  positive = omega arith;
  placed = ((refl, (refl, (refl, tt))), ((refl, tt), tt));
}

-- The number 22 is found behind 12, which has the same hash.
hash_table_lem_example :
    let search = bucket_search last_digit same_number 22 in
    (get_element last_digit same_number two_buckets 22 ≡ Spec.find search (elements two_buckets))
    × ((remove_element last_digit same_number two_buckets 22).0
        ≡ Spec.find search (elements two_buckets))
    × (elements (remove_element last_digit same_number two_buckets 22).1
        ≡ Spec.erase search (elements two_buckets))
    × IsValid last_digit same_number (remove_element last_digit same_number two_buckets 22).1
    × Perm (elements (add last_digit same_number two_buckets 22)) (22 ∷ elements two_buckets)
    × ((key : ℕ)
        → get_element last_digit same_number (add last_digit same_number two_buckets 22) key
          ≡ or_else
              (get_element last_digit same_number two_buckets key)
              (if bucket_search last_digit same_number key 22 then some 22 else none))
    × IsValid last_digit same_number (add last_digit same_number two_buckets 22)
hash_table_lem_example = hash_table_lem last_digit same_number two_buckets 22 two_buckets-IsValid

found : get_element last_digit same_number two_buckets 22 ≡ some 22
unfolding get_element Spec.find
found = refl

four : length (elements two_buckets) < 5
unfolding elements
four = omega arith

iterate-elements_example : iterate 5 two_buckets ≡ elements two_buckets
iterate-elements_example = iterate-elements 5 two_buckets four
