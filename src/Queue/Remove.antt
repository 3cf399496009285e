-- ===== src/Queue/Remove.antt =====
-- queue_search and queue_remove against the list of the elements.
use seven_deadly_syns.Prelude.{
  ℕ, zero, suc, ◌+◌, ◌-◌, ◌/◌, ◌<◌, ◌≡◌, refl, sym, ap, ◌∙◌, if◌then◌else◌, ltb, Bool, Bool-cases,
  Option-cases, inl, inr, none, Ptr, get_or, tabulate, arith, list-ext, length-tabulate,
  get_or-tabulate, get_or-remove_at, length-remove_at, remove_at,
}
use mathlib.Core.Option
use native.Mathlib.Nat.{zero-add}
use seven_deadly_syns.Queue.{
  Queue, get, shift_left, shift_right, take_out, search_from, search_index, search, remove,
}
use seven_deadly_syns.Queue.Spec
use seven_deadly_syns.Queue.Contents.{cell, contents, IsValid}
use seven_deadly_syns.Queue.Pop.{
  popped, popped-IsValid, cell-popped, popped_back, popped_back-IsValid,
}
use seven_deadly_syns.Queue.Shift.{
  Frame-IsValid, shift_left_from-Frame, shift_right-Frame, cell-shift_left_from, cell-shift_right,
}

module _ {A : Type 0} where
  -- Positions move down by one from `k` on: then the contents lose the element at `k`.
  contents-without :
      (q r : Queue A) (k : ℕ)
      → k < q.length
      → r.length + 1 ≡ q.length
      → ((j : ℕ) → j < r.length → cell r j ≡ (if ltb j k then cell q j else cell q (j + 1)))
      → contents r ≡ remove_at (contents q) k
  contents-without q r k lt len same =
      list-ext (contents r) (remove_at (contents q) k) none
        (omega (
          arith,
          length-tabulate (cell r) 0 r.length,
          length-tabulate (cell q) 0 q.length,
          length-remove_at (contents q) k,
        ))
        (λ j h.
          let h' : j < r.length = omega (arith, length-tabulate (cell r) 0 r.length) in
          ground (
            arith,
            get_or-tabulate (cell r) r.length 0 j none,
            same j h',
            get_or-remove_at (contents q) k j none,
            get_or-tabulate (cell q) q.length 0 j none,
            get_or-tabulate (cell q) q.length 0 (suc j) none,
          ))

  -- queue_remove after queue_shiftleft: the head moves back.
  closed_left :
      (q : Queue A) (k : ℕ)
      → IsValid q
      → k < q.length
      → let r = popped_back (shift_left q (k + 1)) in
        IsValid r × (contents r ≡ remove_at (contents q) k)
  unfolding shift_left
  closed_left q k v h =
      let f = shift_left_from-Frame (q.length - (k + 1)) (k + 1) q in
      (
        popped_back-IsValid _ (Frame-IsValid f v) (omega (arith, f.same_length)),
        contents-without q (popped_back (shift_left q (k + 1))) k h (omega (arith, f.same_length))
            (λ j hj.
              let hj' : j + 1 < q.length = omega (arith, f.same_length) in
              cell-shift_left_from (q.length - (k + 1)) (k + 1) j q v (omega arith) (omega arith)
                (omega arith)
              ∙ ground arith),
      )

  -- queue_remove after queue_shiftright: the tail moves up.
  closed_right :
      (q : Queue A) (k : ℕ)
      → IsValid q
      → k < q.length
      → let r = popped (shift_right q k) in IsValid r × (contents r ≡ remove_at (contents q) k)
  closed_right q k v h =
      let f = shift_right-Frame k q in
      (
        popped-IsValid _ (Frame-IsValid f v) (omega (arith, f.same_length)),
        contents-without q (popped (shift_right q k)) k h (omega (arith, f.same_length)) (λ j hj.
            let hj' : j + 1 < q.length = omega (arith, f.same_length) in
            cell-popped (shift_right q k) j
            ∙ cell-shift_right k (j + 1) q v (omega (arith, v.fits)) (omega (arith, v.fits))
            ∙ ground arith),
      )

  take_out_lem :
      (q : Queue A) (k : ℕ)
      → IsValid q
      → k < q.length
      → IsValid (take_out q k) × (contents (take_out q k) ≡ remove_at (contents q) k)
  unfolding take_out
  take_out_lem q k v h = elim (Bool-cases (ltb (q.length / 2) k)) [
    | inl near_head ↦ rw near_head (closed_left q k v h)
    | inr near_tail ↦ rw near_tail (closed_right q k v h)
  ]

  search_from_lem :
      (sf : Ptr A → Ptr A → Bool) (key : Ptr A) (q : Queue A) (n i : ℕ)
      → search_from sf key q n i
        ≡ Option.map (λ j. i + j) (Spec.index_of (sf key) (tabulate (cell q) i n))
  unfolding search_from Spec.index_of
  search_from_lem sf key q zero i = refl
  search_from_lem sf key q (suc n) i = ground (
    arith,
    search_from_lem sf key q n (i + 1),
    Option-cases (Spec.index_of (sf key) (tabulate (cell q) (i + 1) n)),
  )

  search_index_lem :
      (sf : Ptr A → Ptr A → Bool) (key : Ptr A) (q : Queue A)
      → search_index sf key q ≡ Spec.index_of (sf key) (contents q)
  unfolding search_index
  search_index_lem sf key q = ground (
    arith,
    search_from_lem sf key q q.length 0,
    Option-cases (Spec.index_of (sf key) (contents q)),
  )

  get-contents : (q : Queue A) (k : ℕ) → k < q.length → get q k ≡ get_or (contents q) k none
  unfolding get
  get-contents q k h = sym (get_or-tabulate (cell q) q.length 0 k none h ∙ ap (cell q) (zero-add k))

  -- queue_search on a queue returns its first element that the test accepts with the key as the
  -- first argument, and NULL if there is none.
  pub search_lem :
      (sf : Ptr A → Ptr A → Bool) (key : Ptr A) (q : Queue A)
      → search sf key q ≡ Spec.join (Spec.find (sf key) (contents q))
  unfolding search
  search_lem sf key q = elim (Option-cases (Spec.index_of (sf key) (contents q))) [
    | inl e ↦
        rw (search_index_lem sf key q, e, search)
          (ap Spec.join (sym (Spec.index_of-none (sf key) (contents q) e).0))
    | inr (k, e) ↦
        let (h, found, _) = Spec.index_of-find (sf key) (contents q) k none e in
        rw (search_index_lem sf key q, e, search)
          (get-contents q k (omega (arith, length-tabulate (cell q) 0 q.length))
            ∙ ap Spec.join (sym found))
  ]

  -- queue_remove on a valid queue returns what queue_search does, takes exactly that element out
  -- and keeps the others in order; the queue stays valid.
  pub remove_lem :
      (sf : Ptr A → Ptr A → Bool) (key : Ptr A) (q : Queue A)
      → IsValid q
      → IsValid (remove sf key q).1
        × ((remove sf key q).0 ≡ Spec.join (Spec.find (sf key) (contents q)))
        × (contents (remove sf key q).1 ≡ Spec.erase (sf key) (contents q))
  unfolding remove
  remove_lem sf key q v = elim (Option-cases (Spec.index_of (sf key) (contents q))) [
    | inl e ↦
        let (missing, same) = Spec.index_of-none (sf key) (contents q) e in
        rw (search_index_lem sf key q, e, remove) (v, ap Spec.join (sym missing), sym same)
    | inr (k, e) ↦
        let (h, found, erased) = Spec.index_of-find (sf key) (contents q) k none e in
        let h' : k < q.length = omega (arith, length-tabulate (cell q) 0 q.length) in
        let (valid, out) = take_out_lem q k v h' in
        rw (search_index_lem sf key q, e, remove)
          (valid, get-contents q k h' ∙ ap Spec.join (sym found), out ∙ sym erased)
  ]
