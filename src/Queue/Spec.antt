-- ===== src/Queue/Spec.antt =====
-- What Queue.h promises of a queue, as operations on the list of its elements, oldest first.
use mathlib.Core.Option
use seven_deadly_syns.Prelude.{
  ◌<◌, length, arith, ℕ, zero, suc, Option, none, some, List, [], ◌∷◌, ◌++◌, Ptr, ◌≡◌, refl, Bool,
  true, false, if◌then◌else◌, remove_at, get_or,
}

module _ {E : Type 0} where
  -- queue_push
  unfoldable pub push : List E → E → List E
  push xs e = xs ++ (e ∷ [])

  -- The first element that passes the test, and the list without it.
  unfoldable pub find : (E → Bool) → List E → Option E
  find p [] = none
  find p (x ∷ xs) = if p x then some x else find p xs

  unfoldable pub erase : (E → Bool) → List E → List E
  erase p [] = []
  erase p (x ∷ xs) = if p x then xs else x ∷ erase p xs

  -- The index of the first element that passes the test.
  unfoldable pub index_of : (E → Bool) → List E → Option ℕ
  index_of p [] = none
  index_of p (x ∷ xs) = if p x then some 0 else Option.map suc (index_of p xs)

  -- An index that is found is in range, and the element there is the one that `find` gives and
  -- `erase` takes out.
  pub index_of-find :
      (p : E → Bool) (xs : List E) (i : ℕ) (d : E)
      → index_of p xs ≡ some i
      → (i < length xs) × (find p xs ≡ some (get_or xs i d)) × (erase p xs ≡ remove_at xs i)
  unfolding index_of find erase
  index_of-find p [] i d h = cc
  index_of-find p (x ∷ xs) zero d h = ground arith
  index_of-find p (x ∷ xs) (suc i) d h = ground (arith, index_of-find p xs i d)

  pub index_of-none :
      (p : E → Bool) (xs : List E) → index_of p xs ≡ none → (find p xs ≡ none) × (erase p xs ≡ xs)
  unfolding index_of find erase
  index_of-none p [] h = (refl, refl)
  index_of-none p (x ∷ xs) h = ground (arith, index_of-none p xs)

  -- queue_filter
  unfoldable pub filter : (E → Bool) → List E → List E
  filter p [] = []
  filter p (x ∷ xs) = if p x then x ∷ filter p xs else filter p xs

  pub filter-kept :
      (p : E → Bool) (x : E) (xs : List E) → p x ≡ true → filter p (x ∷ xs) ≡ x ∷ filter p xs
  unfolding filter
  filter-kept p x xs h = rw h

  pub filter-dropped :
      (p : E → Bool) (x : E) (xs : List E) → p x ≡ false → filter p (x ∷ xs) ≡ filter p xs
  unfolding filter
  filter-dropped p x xs h = rw h

module _ {A : Type 0} where
  -- queue_concat takes the elements before the first NULL, and leaves those behind it.
  unfoldable pub before_null : List (Ptr A) → List (Ptr A)
  before_null [] = []
  before_null (none ∷ xs) = []
  before_null (some a ∷ xs) = some a ∷ before_null xs

  unfoldable pub after_null : List (Ptr A) → List (Ptr A)
  after_null [] = []
  after_null (none ∷ xs) = xs
  after_null (some a ∷ xs) = after_null xs

  -- What a pointer to a pointer that may be missing reads as.
  abbrev pub join : Option (Ptr A) → Ptr A
  join none = none
  join (some x) = x

  -- queue_pop: NULL from an empty queue.
  unfoldable pub pop : List (Ptr A) → Ptr A × List (Ptr A)
  pop [] = (none, [])
  pop (x ∷ xs) = (x, xs)

  -- queue_spop: the same at the other end.
  unfoldable pub pop_back : List (Ptr A) → Ptr A × List (Ptr A)
  pop_back [] = (none, [])
  pop_back (x ∷ []) = (x, [])
  pop_back (x ∷ y ∷ ys) = let (e, rest) = pop_back (y ∷ ys) in (e, x ∷ rest)

  pub pop_back-snoc : (xs : List (Ptr A)) (e : Ptr A) → pop_back (xs ++ (e ∷ [])) ≡ (e, xs)
  unfolding pop_back
  pop_back-snoc [] e = refl
  pop_back-snoc (x ∷ []) e = refl
  pop_back-snoc (x ∷ y ∷ ys) e = rw (pop_back-snoc (y ∷ ys) e)

  -- What queue_speek leaves of the elements `xs` and the last one: that one goes if it is NULL.
  unfoldable pub peeked : List (Ptr A) → Ptr A → List (Ptr A)
  peeked xs none = xs
  peeked xs (some a) = xs ++ (some a ∷ [])
