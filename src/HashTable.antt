-- ===== src/HashTable.antt =====
-- utility/HashTable/HashTable.c: a table of buckets. A bucket, a LinkedList of elements that are not
-- NULL, is the list of these: linkedlist_append puts an element at the end, linkedlist_get and
-- linkedlist_remove take the first that the search function accepts. A hash is a number from 0 on: a
-- negative `int` would be an index out of bounds.
pub mod Buckets
pub mod Iterate
pub mod Lookup
mod Tests
use seven_deadly_syns.Prelude.{
  ℕ, zero, suc, ◌+◌, ◌%◌, ◌==◌, drop, Bool, true, false, ◌&&◌, if◌then◌else◌, Option, none, some,
  List, [], ◌∷◌, ◌++◌, length, get_elem?, get_or, set, replicate,
}
use seven_deadly_syns.Queue.Spec

-- INITIAL_TABLE_SIZE
abbrev pub initial_table_size : ℕ
initial_table_size = 1023

-- `_HashTable`, without its two functions, which the operations take.
pub record HashTable (A : Type 0) : Type 0 where
  pub table : List (List A)
  pub tablesize : ℕ

module _ {A : Type 0} where
  -- hashtable_new
  unfoldable pub new : HashTable A
  new = record { table = replicate initial_table_size []; tablesize = initial_table_size }

  -- hashtable_remove_all
  unfoldable pub emptied : List (List A) → List (List A)
  emptied [] = []
  emptied (b ∷ bs) = [] ∷ emptied bs

  unfoldable pub remove_all : HashTable A → HashTable A
  unfolding emptied
  remove_all ht = record ht { table = emptied ht.table }

-- `hash` and `equals` of the table.
module _ {A : Type 0} (hash : A → ℕ) (equals : A → A → Bool) where
  -- bucket_search_function
  unfoldable pub bucket_search : A → A → Bool
  bucket_search key element = (hash element == hash key) && equals element key

  unfoldable pub bucket : HashTable A → A → List A
  bucket ht e = get_or ht.table (hash e % ht.tablesize) []

  -- hashtable_get_element
  unfoldable pub get_element : HashTable A → A → Option A
  unfolding bucket bucket_search
  get_element ht e = Spec.find (bucket_search e) (bucket ht e)

  -- hashtable_remove_element
  unfoldable pub remove_element : HashTable A → A → Option A × HashTable A
  unfolding bucket bucket_search
  remove_element ht e = (
    Spec.find (bucket_search e) (bucket ht e),
    record ht {
      table = set ht.table (hash e % ht.tablesize) (Spec.erase (bucket_search e) (bucket ht e));
    },
  )

  -- hashtable_add: it does not ask whether an equal element is there.
  unfoldable pub add : HashTable A → A → HashTable A
  unfolding bucket
  add ht element = record ht {
    table = set ht.table (hash element % ht.tablesize) (Spec.push (bucket ht element) element);
  }

-- `_HashTableIterator`: the index of the bucket, and the index in it of the element given last, none
-- before the first one.
pub record HashTableIterator : Type 0 where
  pub index : ℕ
  pub last : Option ℕ

module _ {A : Type 0} where
  -- linkedlistiterator_next, on a bucket and the place in it.
  unfoldable pub bucket_next : List A → Option ℕ → Option A × Option ℕ
  bucket_next xs none = elim (get_elem? xs 0) [ none ↦ (none, none) | some x ↦ (some x, some 0) ]
  bucket_next xs (some k) = elim (get_elem? xs (k + 1)) [
    | none ↦ (none, some k)
    | some x ↦ (some x, some (k + 1))
  ]

  -- The first bucket with an element among these, the first of which has index `i`.
  unfoldable pub first_filled : List (List A) → ℕ → Option ℕ
  first_filled [] i = none
  first_filled ([] ∷ bs) i = first_filled bs (i + 1)
  first_filled ((x ∷ xs) ∷ bs) i = some i

  -- hashtableiterator_new
  unfoldable pub iterator_new : HashTable A → Option HashTableIterator
  unfolding first_filled
  iterator_new ht = elim (first_filled ht.table 0) [
    | none ↦ none
    | some i ↦ some (record { index = i; last = none })
  ]

  -- hashtableiterator_next
  unfoldable pub iterator_next : HashTable A → HashTableIterator → Option A × HashTableIterator
  unfolding bucket_next first_filled
  iterator_next ht it =
      let (element, place) = bucket_next (get_or ht.table it.index []) it.last in
      elim element [
        | some x ↦ (some x, record it { last = place })
        | none ↦ elim (first_filled (drop (it.index + 1) ht.table) (it.index + 1)) [
          | none ↦ (none, record it { last = place })
          | some i ↦
              (let (next, place') = bucket_next (get_or ht.table i []) none in
                (next, record { index = i; last = place' }))
        ]
      ]
