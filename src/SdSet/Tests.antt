-- ===== src/SdSet/Tests.antt =====
-- The theorems of SdSet over memory that is full of misleading words.
use seven_deadly_syns.Prelude.{
  ℕ, ◌+◌, ◌<◌, ◌≤◌, ◌≡◌, ◌≢◌, refl, true, none, some, ◌∷◌, [], Ptr, arith,
}
use seven_deadly_syns.SdSet.{SdSet, is_set, get, new, put}
use seven_deadly_syns.SdSet.Grow.{IsValid}
use seven_deadly_syns.SdSet.Set.{new-IsValid, put_lem}

-- Fresh memory in which each word points to itself.
abbrev word : ℕ → ℕ
word i = i

abbrev pointer : ℕ → Ptr ℕ
pointer i = some i

abbrev start : SdSet ℕ
start = new word pointer

put_lem_example :
    (r : SdSet ℕ) × (put word pointer start 12 (some 7) ≡ some r)
    × IsValid r
    × (r.size ≡ start.size + 1)
    × (get r 12 ≡ some (some 7))
    × ((k : ℕ) → k ≢ 12 → k < start.space → get r k ≡ get start k)
    × ((k : ℕ) → k ≢ 12 → start.space ≤ k → k < r.space → get r k ≡ some none)
put_lem_example = put_lem word pointer start 12 (some 7) (new-IsValid word pointer) fresh
  where
    fresh : is_set start 12 ≢ some true
    fresh = unfold is_set new in λ e. ground (arith, e)

abbrev one_key : SdSet ℕ
one_key = record {
  dense = 3 ∷ 1 ∷ 2 ∷ 3 ∷ [];
  sparse = 0 ∷ 1 ∷ 2 ∷ 0 ∷ [];
  values = none ∷ none ∷ none ∷ some 9 ∷ [];
  size = 1;
  space = 4;
}

one_key-IsValid : IsValid one_key
one_key-IsValid = record {
  dense_length = refl;
  sparse_length = refl;
  values_length = refl;
  positive = omega arith;
  keys = λ i h. let e : i ≡ 0 = omega arith in rw e (omega arith);
  back = λ i h. let e : i ≡ 0 = omega arith in rw e refl;
}

run_get : get one_key 3 ≡ some (some 9)
unfolding get
run_get = refl
