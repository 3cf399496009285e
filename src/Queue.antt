-- ===== src/Queue.antt =====
-- utility/Queue/Queue.c: a double-ended queue of pointers in a circular array that doubles when
-- it is full. A function that changes `*q` returns the new queue. `malloc n` is the content of a
-- fresh block of `n` pointers; `int` indices are taken as numbers, and no sum reaches 2 ^ 31.
pub mod Spec
pub mod Contents
pub mod Push
pub mod Pop
pub mod Shift
pub mod Remove
pub mod Whole
pub mod Peek
pub mod Run
mod Tests
pub mod Access
use seven_deadly_syns.Prelude.{
  ℕ, zero, suc, ◌+◌, ◌-◌, ◌*◌, ◌/◌, ◌%◌, Bool, true, false, if◌then◌else◌, ◌==◌, ltb, Option, none,
  some, List, [], ◌∷◌, Ptr, get_or, set,
}

-- INITIAL_QUEUE_SPACE
abbrev pub initial_space : ℕ
initial_space = 10

-- `_Queue`.
pub record Queue {ℓ} (A : Type ℓ) : Type ℓ where
  pub elements : List (Ptr A)
  pub length : ℕ
  pub space : ℕ
  pub head : ℕ
  pub tail : ℕ

module _ {ℓ} {A : Type ℓ} where
  -- `q->elements[(i + q->tail) % q->space]`
  abbrev pub slot : Queue A → ℕ → ℕ
  slot q i = (i + q.tail) % q.space

  abbrev pub write : Queue A → ℕ → Ptr A → Queue A
  write q k e = record q { elements = set q.elements k e }

  pub get : Queue A → ℕ → Ptr A
  get q index = get_or q.elements (slot q index) none

  pub set_at : Queue A → Ptr A → ℕ → Queue A
  set_at q element index = write q (slot q index) element

  -- `rounds` rounds of the loop of queue_shiftleft, from index `i` (at least 1) on.
  pub shift_left_from : ℕ → ℕ → Queue A → Queue A
  shift_left_from zero i q = q
  shift_left_from (suc rounds) i q =
      shift_left_from rounds (i + 1)
        (write q ((i + q.tail + q.space - 1) % q.space) (get_or q.elements (slot q i) none))

  pub shift_left : Queue A → ℕ → Queue A
  unfolding shift_left_from
  shift_left q index = shift_left_from (q.length - index) index q

  -- The loop of queue_shiftright over the indices below `n`, downwards:
  -- `queue_shiftright(q, n - 1)`.
  pub shift_right : Queue A → ℕ → Queue A
  shift_right q zero = q
  shift_right q (suc i) =
      shift_right (write q ((i + 1 + q.tail) % q.space) (get_or q.elements (slot q i) none)) i

  -- The copy loop of queue_push: `rounds` rounds from index `i` on.
  pub copy_from : Queue A → ℕ → ℕ → List (Ptr A) → List (Ptr A)
  copy_from q zero i new = new
  copy_from q (suc rounds) i new =
      copy_from q rounds (i + 1) (set new i (get_or q.elements ((i + q.tail) % q.length) none))

  pub pop : Queue A → Ptr A × Queue A
  pop q = if q.length == 0 then (none, q) else (
    get_or q.elements q.tail none,
    record q { tail = (q.tail + 1) % q.space; length = q.length - 1 },
  )

  -- queue_spop
  pub pop_back : Queue A → Ptr A × Queue A
  pop_back q =
      if q.length == 0
      then (none, q)
      else (let head = (q.head + q.space - 1) % q.space in
          (get_or q.elements head none, record q { length = q.length - 1; head = head }))

  -- queue_swap
  pub swap : Queue A → ℕ → ℕ → Queue A
  unfolding get set_at
  swap q i j = let tmp = get q i in set_at (set_at q (get q j) i) tmp j

  -- queue_shuffle, from index `i` down to 1; `rand` gives the value that each round draws.
  pub shuffle_from : (ℕ → ℕ) → ℕ → Queue A → Queue A
  shuffle_from rand zero q = q
  shuffle_from rand (suc i) q = shuffle_from rand i (swap q (suc i) (rand (suc i) % suc i))

  pub shuffle : (ℕ → ℕ) → Queue A → Queue A
  unfolding shuffle_from swap
  shuffle rand q = shuffle_from rand (q.length - 1) q

  -- qsearchi: the key is the first argument of the search function.
  pub search_from : (Ptr A → Ptr A → Bool) → Ptr A → Queue A → ℕ → ℕ → Option ℕ
  search_from sf key q zero i = none
  search_from sf key q (suc rounds) i =
      let rest = search_from sf key q rounds (i + 1) in
      if sf key (get_or q.elements (slot q i) none) then some i else rest

  pub search_index : (Ptr A → Ptr A → Bool) → Ptr A → Queue A → Option ℕ
  unfolding search_from
  search_index sf key q = search_from sf key q q.length 0

  pub search : (Ptr A → Ptr A → Bool) → Ptr A → Queue A → Ptr A
  unfolding search_index get
  search sf key q = elim (search_index sf key q) [ none ↦ none | some index ↦ get q index ]

  -- The part of queue_remove after the search.
  pub take_out : Queue A → ℕ → Queue A
  unfolding shift_left shift_right
  take_out q index =
      if ltb (q.length / 2) index
      then (let r = shift_left q (index + 1) in
          record r { head = (r.head + r.space - 1) % r.space; length = r.length - 1 })
      else (let r = shift_right q index in
          record r { tail = (r.tail + 1) % r.space; length = r.length - 1 })

  pub remove : (Ptr A → Ptr A → Bool) → Ptr A → Queue A → Ptr A × Queue A
  unfolding search_index get take_out
  remove sf key q = elim (search_index sf key q) [
    | none ↦ (none, q)
    | some index ↦ (get q index, take_out q index)
  ]

-- The functions that allocate.
module _ {ℓ} {A : Type ℓ} (malloc : ℕ → List (Ptr A)) where
  pub new : Queue A
  new = record {
    elements = malloc initial_space;
    length = 0;
    space = initial_space;
    head = 0;
    tail = 0;
  }

  -- The growth at the start of queue_push.
  pub grow : Queue A → Queue A
  unfolding copy_from
  grow q =
      if q.length == q.space
      then record {
        elements = copy_from q q.length 0 (malloc (q.space * 2));
        length = q.length;
        space = q.space * 2;
        head = q.length;
        tail = 0;
      }
      else q

  pub push : Queue A → Ptr A → Queue A
  unfolding grow
  push q e =
      let r = grow q in
      record r {
        elements = set r.elements r.head e;
        head = (r.head + 1) % r.space;
        length = r.length + 1;
      }

  -- queue_speek
  pub peek_back : Queue A → Ptr A × Queue A
  unfolding pop_back push
  peek_back q =
      let (element, r) = pop_back q in
      elim element [ none ↦ (none, r) | some e ↦ (some e, push r (some e)) ]

  pub filter_from : (Ptr A → Bool) → Queue A → ℕ → ℕ → Queue A → Queue A
  filter_from keep q zero i out = out
  filter_from keep q (suc rounds) i out =
      let element = get_or q.elements (slot q i) none in
      filter_from keep q rounds (i + 1) (if keep element then push out element else out)

  pub filter : (Ptr A → Bool) → Queue A → Queue A
  unfolding filter_from new
  filter keep q = filter_from keep q q.length 0 new

  -- queue_concat: the loop ends at the first NULL popped. `fuel` bounds its rounds.
  pub concat_from : ℕ → Queue A → Queue A → Queue A × Queue A
  concat_from zero q1 q2 = (q1, q2)
  concat_from (suc fuel) q1 q2 =
      let (element, r2) = pop q2 in
      elim element [ none ↦ (q1, r2) | some e ↦ concat_from fuel (push q1 (some e)) r2 ]

  pub concat : Queue A → Queue A → Queue A × Queue A
  unfolding concat_from pop
  concat q1 q2 = concat_from (q2.length + 1) q1 q2

-- queue_map
module _ {ℓ κ} {A : Type ℓ} {B : Type κ} (malloc : ℕ → List (Ptr B)) where
  pub map_from : (Ptr A → Ptr B) → Queue A → ℕ → ℕ → Queue B → Queue B
  map_from f q zero i out = out
  map_from f q (suc rounds) i out =
      map_from f q rounds (i + 1) (push malloc out (f (get_or q.elements (slot q i) none)))

  pub map : (Ptr A → Ptr B) → Queue A → Queue B
  unfolding map_from
  map f q = map_from f q q.length 0 (new malloc)
