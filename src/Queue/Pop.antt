-- ===== src/Queue/Pop.antt =====
-- queue_pop, queue_spop and queue_speek against the list of the elements.
use native.Mathlib.Nat.{mod-add-mod, add-mod-mod, add-mod_right, mod-eq_of_lt}
use seven_deadly_syns.Prelude.{
  ℕ, ◌+◌, ◌-◌, ◌%◌, ◌<◌, ◌≡◌, refl, sym, ap, ◌∙◌, ◌==◌, none, get_or, arith, Bool-cases, ==_iff,
  inl, inr,
}
use seven_deadly_syns.Queue.{Queue, slot, pop, pop_back}
use seven_deadly_syns.Queue.Spec
use seven_deadly_syns.Queue.Contents.{
  cell, contents, IsValid, contents-empty, contents-shorter, contents-tail,
}

module _ {A : Type 0} where
  abbrev pub popped : Queue A → Queue A
  popped q = record q { tail = (q.tail + 1) % q.space; length = q.length - 1 }

  pub popped-IsValid : (q : Queue A) → IsValid q → 0 < q.length → IsValid (popped q)
  popped-IsValid q v h = record {
    allocated = v.allocated;
    tail_in = omega (arith, v.tail_in);
    fits = omega (arith, v.fits);
    head_at =
        v.head_at
        ∙ ap (λ k. k % q.space) (omega arith)
        ∙ sym (mod-add-mod (q.tail + 1) q.space (q.length - 1));
  }

  pub cell-popped : (q : Queue A) (i : ℕ) → cell (popped q) i ≡ cell q (i + 1)
  cell-popped q i =
      ap (λ k. get_or q.elements k none)
        (add-mod-mod i (q.tail + 1) q.space ∙ ap (λ k. k % q.space) (omega arith))

  abbrev pub popped_back : Queue A → Queue A
  popped_back q = record q { length = q.length - 1; head = (q.head + q.space - 1) % q.space }

  head-popped_back :
      (q : Queue A)
      → IsValid q
      → 0 < q.length
      → (q.head + q.space - 1) % q.space ≡ slot q (q.length - 1)
  head-popped_back q v h =
      ap (λ k. (k + q.space - 1) % q.space) v.head_at
      ∙ ap (λ k. k % q.space) (regroup ((q.tail + q.length) % q.space))
      ∙ mod-add-mod (q.tail + q.length) q.space (q.space - 1)
      ∙ ap (λ k. k % q.space) (omega (arith, v.tail_in))
      ∙ add-mod_right (q.length - 1 + q.tail) q.space
    where
      regroup : (k : ℕ) → k + q.space - 1 ≡ k + (q.space - 1)
      regroup k = omega (arith, v.tail_in)

  pub popped_back-IsValid : (q : Queue A) → IsValid q → 0 < q.length → IsValid (popped_back q)
  popped_back-IsValid q v h = record {
    allocated = v.allocated;
    tail_in = v.tail_in;
    fits = omega (arith, v.fits);
    head_at = head-popped_back q v h ∙ ap (λ k. k % q.space) (omega arith);
  }

  popped_lem :
      (q : Queue A)
      → IsValid q
      → 0 < q.length
      → ((cell q 0, contents (popped q)) ≡ Spec.pop (contents q))
        × (get_or q.elements q.tail none ≡ cell q 0)
  unfolding Spec.pop
  popped_lem q v h = (
    rw (contents-tail q (popped q) (q.length - 1) (ground arith) refl (λ i _. cell-popped q i)),
    ap (λ k. get_or q.elements k none)
        (sym (mod-eq_of_lt v.tail_in) ∙ ap (λ k. k % q.space) (omega arith)),
  )

  -- queue_pop on a valid queue returns the first element and leaves the others, valid; on an
  -- empty one it returns NULL and changes nothing.
  pub pop_lem :
      (q : Queue A)
      → IsValid q
      → IsValid (pop q).1 × (((pop q).0, contents (pop q).1) ≡ Spec.pop (contents q))
  unfolding pop
  pop_lem q v = elim (Bool-cases (q.length == 0)) [
    | inl empty ↦
        let e : q.length ≡ 0 = (==_iff q.length 0).0 empty in
        rw empty (v, rw (contents-empty q e) (unfold Spec.pop in refl))
    | inr some_left ↦
        let pos : 0 < q.length = ground arith in
        rw some_left (
          popped-IsValid q v pos,
          ap (λ x. (x, contents (popped q))) (popped_lem q v pos).1 ∙ (popped_lem q v pos).0,
        )
  ]

  -- queue_spop on a valid queue returns the last element and leaves the others, valid; on an
  -- empty one it returns NULL and changes nothing.
  pub pop_back_lem :
      (q : Queue A)
      → IsValid q
      → IsValid (pop_back q).1
        × (((pop_back q).0, contents (pop_back q).1) ≡ Spec.pop_back (contents q))
  unfolding pop_back
  pop_back_lem q v = elim (Bool-cases (q.length == 0)) [
    | inl empty ↦
        let e : q.length ≡ 0 = (==_iff q.length 0).0 empty in
        rw empty (v, rw (contents-empty q e) (unfold Spec.pop_back in refl))
    | inr some_left ↦
        let pos : 0 < q.length = ground arith in
        rw some_left (
          popped_back-IsValid q v pos,
          ap (λ k. (get_or q.elements k none, contents (popped_back q))) (head-popped_back q v pos)
              ∙ sym (Spec.pop_back-snoc (contents (popped_back q)) (cell q (q.length - 1)))
              ∙ ap Spec.pop_back (
                  sym (
                    contents-shorter q (popped_back q) (q.length - 1) (ground arith) refl
                      (λ i _. refl))),
        )
  ]
