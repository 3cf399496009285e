-- ===== src/Queue/Push.antt =====
-- queue_new and queue_push against the list of the elements.
use native.Mathlib.Nat.{mod-add-mod}
use seven_deadly_syns.Prelude.{
  ℕ, zero, suc, ◌+◌, ◌*◌, ◌%◌, ◌≤◌, ◌<◌, ◌≡◌, refl, ap, ◌∙◌, if◌then◌else◌, ltb, leb, ◌&&◌, ◌==◌,
  none, List, [], ◌∷◌, ◌++◌, Ptr, get_or, set, length, length-set, arith, get_or-set_self,
  get_or-set_ne, Bool-cases, ==_iff, inl, inr,
}
use seven_deadly_syns.Queue.{Queue, slot, copy_from, grow, push, new}
use seven_deadly_syns.Queue.Spec
use seven_deadly_syns.Queue.Contents.{
  mod_wrap, cell, contents, IsValid, contents-extend, contents-same, slot_in, slot-ne,
}

module _ {A : Type 0} where
  length-copy_from :
      (q : Queue A) (rounds i : ℕ) (xs : List (Ptr A))
      → length (copy_from q rounds i xs) ≡ length xs
  unfolding copy_from
  length-copy_from q zero i xs = refl
  length-copy_from q (suc rounds) i xs = length-copy_from q rounds (i + 1) _ ∙ length-set xs i _

  get_or-copy_from :
      (q : Queue A) (rounds i k : ℕ) (xs : List (Ptr A))
      → i + rounds ≤ length xs
      → get_or (copy_from q rounds i xs) k none ≡ (
          if leb i k && ltb k (i + rounds)
          then get_or q.elements ((k + q.tail) % q.length) none
          else get_or xs k none)
  unfolding copy_from
  get_or-copy_from q zero i k xs h = ground arith
  get_or-copy_from q (suc rounds) i k xs h = ground (
    arith,
    get_or-copy_from q rounds (i + 1) k
        (set xs i (get_or q.elements ((i + q.tail) % q.length) none)),
    length-set xs i (get_or q.elements ((i + q.tail) % q.length) none),
    get_or-set_self xs i (get_or q.elements ((i + q.tail) % q.length) none) none,
    get_or-set_ne xs i k (get_or q.elements ((i + q.tail) % q.length) none) none,
  )

module _ {A : Type 0} (malloc : ℕ → List (Ptr A)) (fresh : (n : ℕ) → length (malloc n) ≡ n) where
  -- queue_new makes a valid queue of no elements.
  pub new_lem : IsValid (new malloc) × (contents (new malloc) ≡ [])
  unfolding new
  new_lem = ground (arith, fresh 10)

  -- The queue that the growth makes.
  abbrev grown : Queue A → Queue A
  grown q = record {
    elements = copy_from q q.length 0 (malloc (q.space * 2));
    length = q.length;
    space = q.space * 2;
    head = q.length;
    tail = 0;
  }

  cell-grown :
      (q : Queue A)
      → IsValid q
      → q.length ≡ q.space
      → (i : ℕ) → i < q.length
      → cell (grown q) i ≡ cell q i
  cell-grown q v full i lt =
      let at_i : (i + 0) % (q.space * 2) ≡ i = ground (arith, mod_wrap (i + 0) (q.space * 2)) in
      rw at_i (
        get_or-copy_from q q.length 0 i (malloc (q.space * 2)) (omega (arith, fresh (q.space * 2)))
        ∙ ground arith)

  grown-IsValid : (q : Queue A) → IsValid q → q.length ≡ q.space → IsValid (grown q)
  grown-IsValid q v full = record {
    allocated = length-copy_from q q.length 0 (malloc (q.space * 2)) ∙ fresh (q.space * 2);
    tail_in = omega (arith, v.tail_in);
    fits = omega (arith, v.fits);
    head_at = ground (arith, mod_wrap (0 + q.length) (q.space * 2), v.tail_in, full);
  }

  -- The growth keeps the elements, and leaves room for one more.
  grow_lem :
      (q : Queue A)
      → IsValid q
      → IsValid (grow malloc q)
        × ((grow malloc q).length ≡ q.length)
        × (contents (grow malloc q) ≡ contents q)
        × (q.length < (grow malloc q).space)
  unfolding grow
  grow_lem q v = elim (Bool-cases (q.length == q.space)) [
    | inl full ↦
        let e : q.length ≡ q.space = (==_iff q.length q.space).0 full in
        rw full (
          grown-IsValid q v e,
          refl,
          contents-same q (grown q) refl (cell-grown q v e),
          omega (arith, v.tail_in),
        )
    | inr room ↦ rw room (v, refl, refl, ground arith)
  ]

  -- queue_push after the growth.
  abbrev placed : Queue A → Ptr A → Queue A
  placed r e = record r {
    elements = set r.elements r.head e;
    head = (r.head + 1) % r.space;
    length = r.length + 1;
  }

  placed_lem :
      (r : Queue A) (e : Ptr A)
      → IsValid r
      → r.length < r.space
      → IsValid (placed r e) × (contents (placed r e) ≡ contents r ++ (e ∷ []))
  placed_lem r e v lt = (
    record {
      allocated = length-set r.elements r.head e ∙ v.allocated;
      tail_in = v.tail_in;
      fits = omega arith;
      head_at =
          ap (λ h. (h + 1) % r.space) v.head_at
          ∙ rw mod-add-mod (ap (λ k. k % r.space) (omega arith));
    },
    contents-extend r (placed r e) e refl
        (λ i h.
          get_or-set_ne r.elements r.head (slot r i) e none
            (rw at_end (slot-ne v r.length i lt (omega arith) (omega arith))))
        (rw at_end (
          get_or-set_self r.elements (slot r r.length) e none
            (omega (arith, slot_in v r.length, v.allocated)))),
  )
    where
      at_end : r.head ≡ slot r r.length
      at_end = v.head_at ∙ ap (λ k. k % r.space) (omega arith)

  -- queue_push keeps the queue valid and puts the element behind the others.
  pub push_lem :
      (q : Queue A) (e : Ptr A)
      → IsValid q
      → IsValid (push malloc q e) × (contents (push malloc q e) ≡ Spec.push (contents q) e)
  unfolding push Spec.push
  push_lem q e v =
      let (valid, len, same, room) = grow_lem q v in
      let (valid', more) = placed_lem (grow malloc q) e valid (omega arith) in
      (valid', more ∙ ap (λ xs. xs ++ (e ∷ [])) same)
