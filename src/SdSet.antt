-- ===== src/SdSet.antt =====
-- utility/SDSet/SDSet.c: a sparse set of numbers with values. Its memory is not initialised: what a
-- fresh word holds is a parameter. `none` is a read or a write out of bounds. malloc and realloc do
-- not fail, and no product of the growth reaches 2 ^ 31.
pub mod Grow
pub mod Pigeon
pub mod Set
mod Tests
use seven_deadly_syns.Prelude.{
  ℕ, zero, suc, ◌+◌, ◌-◌, ◌*◌, Bool, true, false, ◌&&◌, ◌==◌, ltb, leb, if◌then◌else◌, Option, none,
  some, List, ◌++◌, Ptr, get_or, set, length, tabulate,
}

-- INITITIAL_SIZE
abbrev pub initial_size : ℕ
initial_size = 10

-- `_SDSet`.
pub record SdSet {ℓ} (A : Type ℓ) : Type ℓ where
  pub dense : List ℕ
  pub sparse : List ℕ
  pub values : List (Ptr A)
  pub size : ℕ
  pub space : ℕ

module _ {ℓ} {A : Type ℓ} where
  -- sdset_is_set
  unfoldable pub is_set : SdSet A → ℕ → Option Bool
  is_set s key =
      let index = get_or s.sparse key 0 in
      if ltb key s.space
      then (if ltb index s.size
          then (if ltb index s.space then some (get_or s.dense index 0 == key) else none)
          else some false)
      else none

  -- sdset_get
  unfoldable pub get : SdSet A → ℕ → Option (Ptr A)
  unfolding is_set
  get s key = elim (is_set s key) [
    | none ↦ none
    | some true ↦ some (get_or s.values key none)
    | some false ↦ some none
  ]

  -- sdset_get_index
  unfoldable pub get_index : SdSet A → ℕ → Option (Ptr A)
  get_index s index =
      let key = get_or s.dense index 0 in
      if leb s.size index
      then some none
      else if ltb index s.space
      then (if ltb key s.space then some (get_or s.values key none) else none)
      else none

  -- sdset_clear
  unfoldable pub clear : SdSet A → SdSet A
  clear s = record s { size = 0 }

module _ {ℓ} {A : Type ℓ} (word : ℕ → ℕ) (pointer : ℕ → Ptr A) where
  -- sdset_new
  unfoldable pub new : SdSet A
  new = record {
    dense = tabulate word 0 initial_size;
    sparse = tabulate word 0 initial_size;
    values = tabulate pointer 0 initial_size;
    size = 0;
    space = initial_size;
  }

  -- One round of the loop of sdset_set: realloc keeps what was there.
  unfoldable pub double : SdSet A → SdSet A
  double s = record {
    dense = s.dense ++ tabulate word s.space s.space;
    sparse = s.sparse ++ tabulate word s.space s.space;
    values = s.values ++ tabulate pointer s.space s.space;
    size = s.size;
    space = s.space * 2;
  }

  -- The loop, at most `fuel` rounds.
  unfoldable pub grow : ℕ → ℕ → SdSet A → SdSet A
  unfolding double
  grow zero key s = s
  grow (suc fuel) key s = let rest = grow fuel key (double s) in if leb s.space key then rest else s

  -- sdset_set: it does not ask whether the key is there.
  unfoldable pub put : SdSet A → ℕ → Ptr A → Option (SdSet A)
  unfolding grow
  put s key value =
      let r = grow (key + 1) key s in
      if ltb r.size r.space
      then some (record r {
        dense = set r.dense r.size key;
        sparse = set r.sparse key r.size;
        values = set r.values key value;
        size = r.size + 1;
      })
      else none
