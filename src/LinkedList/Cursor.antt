-- ===== src/LinkedList/Cursor.antt =====
-- An iterator that stands at a node, and what its operations do to the list.
use mathlib.Core.Path.{subst}
use mathlib.Core.List.{append_assoc}
use seven_deadly_syns.Prelude.{
  ℕ, ◌+◌, ◌==◌, ◌≡◌, refl, sym, ◌∙◌, true, false, none, some, [], ◌∷◌, ◌++◌, length-append, Ptr,
  arith, Bool-cases, inl, inr,
}
use seven_deadly_syns.LinkedList.{node, LinkedList, Nodes, write}
use seven_deadly_syns.LinkedList.Heap.{
  Cells, has_address, Distinct, first, last, first-append, Seg-append, append-Seg, Seg-write,
  rejoin, has_address-append, Distinct-append,
}
use seven_deadly_syns.LinkedList.Unlink.{
  set_forward_lem, set_back_lem, write_other, missed, own, swapped,
}
use seven_deadly_syns.LinkedList.Refine.{IsList, last-append, take_out_lem}
use seven_deadly_syns.LinkedList.Run.{fresh_address, write_self}
use seven_deadly_syns.LinkedList.Iterator.{
  ℤ, increased, decreased, LinkedListIterator, iterator_next, insert_after, iterator_remove,
}

-- The iterator stands at a node.
abbrev pub cursor : LinkedList → ℕ → ℤ → LinkedListIterator
cursor ll a index = record { list = ll; ln = some a; index = index }

module _ {A : Type 0} where
  -- An address of the second part is none of the first, and another way round.
  pub before :
      (pre : Cells A) (a : ℕ) (x : A) (post : Cells A)
      → Distinct (pre ++ ((a, x) ∷ post))
      → has_address a pre ≡ false
  before pre a x post d = elim (Bool-cases (has_address a pre)) [
    | inl twice ↦ absurd (own a x post ((Distinct-append pre ((a, x) ∷ post) d).2 a twice))
    | inr once ↦ once
  ]

  pub part :
      (k : ℕ) (xs ys : Cells A)
      → has_address k (xs ++ ys) ≡ false
      → (has_address k xs ≡ false) × (has_address k ys ≡ false)
  part k xs ys away = elim (Bool-cases (has_address k xs)) [
    | inl here ↦ absurd (ground (arith, away, has_address-append k xs ys, here))
    | inr gone ↦ (gone, ground (arith, away, has_address-append k xs ys, gone))
  ]

  pub Distinct-insert :
      (xs ys : Cells A) (new : ℕ) (y : A)
      → Distinct (xs ++ ys)
      → has_address new (xs ++ ys) ≡ false
      → Distinct (xs ++ ((new, y) ∷ ys))
  Distinct-insert [] ys new y d away = (away, d)
  Distinct-insert ((k, z) ∷ xs) ys new y (h, d) away =
      let (other, rest) = missed new k z (xs ++ ys) away in
      (apart (swapped new k other), Distinct-insert xs ys new y d rest)
    where
      apart : (k == new) ≡ false → has_address k (xs ++ ((new, y) ∷ ys)) ≡ false
      apart other =
          let (a, b) = part k xs ys h in
          has_address-append k xs ((new, y) ∷ ys) ∙ ground (arith, a, b, other)

  after-Distinct :
      (pre : Cells A) (a new : ℕ) (x y : A) (post : Cells A)
      → Distinct (pre ++ ((a, x) ∷ post))
      → has_address new (pre ++ ((a, x) ∷ post)) ≡ false
      → Distinct (pre ++ ((a, x) ∷ (new, y) ∷ post))
  after-Distinct pre a new x y post d away =
      let joined = append_assoc pre ((a, x) ∷ []) post in
      subst Distinct (append_assoc pre ((a, x) ∷ []) ((new, y) ∷ post)) (
        Distinct-insert (pre ++ ((a, x) ∷ [])) post new y (subst Distinct (sym joined) d)
          (subst (λ cs. has_address new cs ≡ false) (sym joined) away))

  pub iterator_remove_lem :
      (h : Nodes A) (ll : LinkedList) (pre : Cells A) (a : ℕ) (i : ℤ) (x : A) (post : Cells A)
      → IsList h ll (pre ++ ((a, x) ∷ post))
      → (ll' : LinkedList) × (h' : Nodes A) × (iterator_remove h (cursor ll a i)
          ≡ some (some x, record { list = ll'; ln = last none pre; index = decreased i }, h'))
        × IsList h' ll' (pre ++ post)
  unfolding iterator_remove
  iterator_remove_lem h ll pre a i x post v =
      let (ll', h', out, valid) = take_out_lem h ll pre a x post v in
      let at_a = (Seg-append h none none pre ((a, x) ∷ post) v.chain).1.0 in
      (ll', h', rw (at_a, iterator_remove) (rw (out, iterator_remove) refl), valid)

  insert_after_end :
      (h : Nodes A) (ll : LinkedList) (pre : Cells A) (a : ℕ) (i : ℤ) (new : ℕ) (x y : A)
      → IsList h ll (pre ++ ((a, x) ∷ []))
      → h new ≡ none
      → (ll' : LinkedList) × (h' : Nodes A) × (insert_after new h (cursor ll a i) y
          ≡ some (true, cursor ll' a i, h'))
        × IsList h' ll' (pre ++ ((a, x) ∷ (new, y) ∷ []))
  unfolding insert_after
  insert_after_end h ll pre a i new x y v free =
      let (front, (at_a, _)) = Seg-append h none none pre ((a, x) ∷ []) v.chain in
      let away = fresh_address h none none (pre ++ ((a, x) ∷ [])) new free v.chain in
      let (not_pre, not_rest) = part new pre ((a, x) ∷ []) away in
      let (other, _) = missed new a x [] not_rest in
      let v1 = some (node none (some a) y) in
      let h1 = write h new v1 in
      let at_a1 : h1 a ≡ some (node none (last none pre) x) =
        write_other h a new v1 (swapped new a other) ∙ at_a in
      let v2 = some (node (some new) (last none pre) x) in
      (
        record ll { tail = some new; size = ll.size + 1 },
        write h1 a v2,
        rw (at_a, insert_after)
            (rw (set_forward_lem h1 a (node none (last none pre) x) (some new) at_a1, insert_after)
              refl),
        record {
          root =
              v.root
              ∙ first-append pre ((a, x) ∷ []) none
              ∙ sym (first-append pre ((a, x) ∷ (new, y) ∷ []) none);
          tail = sym (last-append (some new) pre ((a, x) ∷ (new, y) ∷ []));
          chain =
              append-Seg (write h1 a v2) none none pre ((a, x) ∷ (new, y) ∷ [])
                (Seg-write h1 none (some a) pre a v2 (before pre a x [] v.distinct)
                  (Seg-write h none (some a) pre new v1 not_pre front))
                (write_self h1 a v2, (write_other h1 new a v2 other ∙ write_self h new v1, tt));
          distinct = after-Distinct pre a new x y [] v.distinct away;
          size = omega (
            arith,
            v.size,
            length-append pre ((a, x) ∷ []),
            length-append pre ((a, x) ∷ (new, y) ∷ []),
          );
        },
      )

  insert_after_between :
      (h : Nodes A) (ll : LinkedList) (pre : Cells A) (a : ℕ) (i : ℤ) (new c : ℕ) (x y z : A)
      (post : Cells A)
      → IsList h ll (pre ++ ((a, x) ∷ (c, z) ∷ post))
      → h new ≡ none
      → (ll' : LinkedList) × (h' : Nodes A) × (insert_after new h (cursor ll a i) y
          ≡ some (true, cursor ll' a i, h'))
        × IsList h' ll' (pre ++ ((a, x) ∷ (new, y) ∷ (c, z) ∷ post))
  unfolding insert_after
  insert_after_between h ll pre a i new c x y z post v free =
      let (front, (at_a, rest)) = Seg-append h none none pre ((a, x) ∷ (c, z) ∷ post) v.chain in
      let (_, (a_away, dpost), apart) = Distinct-append pre ((a, x) ∷ (c, z) ∷ post) v.distinct in
      let away = fresh_address h none none (pre ++ ((a, x) ∷ (c, z) ∷ post)) new free v.chain in
      let (not_pre, not_rest) = part new pre ((a, x) ∷ (c, z) ∷ post) away in
      let (not_a, not_post) = missed new a x ((c, z) ∷ post) not_rest in
      let (not_c, _) = missed new c z post not_post in
      let (a_c, _) = missed a c z post a_away in
      let c_pre : has_address c pre ≡ false = elim (Bool-cases (has_address c pre)) [
        | inl twice ↦ absurd (own c z post (missed c a x ((c, z) ∷ post) (apart c twice)).1)
        | inr once ↦ once
      ] in
      let v1 = some (node (some c) (some a) y) in
      let h1 = write h new v1 in
      let rest1 = Seg-write h (some a) none ((c, z) ∷ post) new v1 not_post rest in
      let v2 = some (node (first post none) (some new) z) in
      let h2 = write h1 c v2 in
      let v3 = some (node (some new) (last none pre) x) in
      let h3 = write h2 a v3 in
      let at_a2 : h2 a ≡ some (node (some c) (last none pre) x) =
        write_other h1 a c v2 a_c ∙ write_other h a new v1 (swapped new a not_a) ∙ at_a in
      (
        record ll { size = ll.size + 1 },
        h3,
        rw (at_a, insert_after)
            (rw
              (
                set_back_lem h1 c (node (first post none) (some a) z) (some new) rest1.0,
                insert_after,
              )
              (rw
                (
                  set_forward_lem h2 a (node (some c) (last none pre) x) (some new) at_a2,
                  insert_after,
                )
                refl)),
        record {
          root =
              v.root
              ∙ first-append pre ((a, x) ∷ (c, z) ∷ post) none
              ∙ sym (first-append pre ((a, x) ∷ (new, y) ∷ (c, z) ∷ post) none);
          tail =
              v.tail
              ∙ last-append ll.tail pre ((a, x) ∷ (c, z) ∷ post)
              ∙ sym (last-append ll.tail pre ((a, x) ∷ (new, y) ∷ (c, z) ∷ post));
          chain =
              append-Seg h3 none none pre ((a, x) ∷ (new, y) ∷ (c, z) ∷ post)
                (Seg-write h2 none (some a) pre a v3 (before pre a x ((c, z) ∷ post) v.distinct) (
                  Seg-write h1 none (some a) pre c v2 c_pre
                    (Seg-write h none (some a) pre new v1 not_pre front)))
                (
                  write_self h2 a v3,
                  (
                    write_other h2 new a v3 not_a
                        ∙ write_other h1 new c v2 not_c
                        ∙ write_self h new v1,
                    Seg-write h2 (some new) none ((c, z) ∷ post) a v3 a_away
                        (rejoin h1 (some a) (some new) none c z post rest1 dpost),
                  ),
                );
          distinct = after-Distinct pre a new x y ((c, z) ∷ post) v.distinct away;
          size = omega (
            arith,
            v.size,
            length-append pre ((a, x) ∷ (c, z) ∷ post),
            length-append pre ((a, x) ∷ (new, y) ∷ (c, z) ∷ post),
          );
        },
      )

  pub insert_after_lem :
      (h : Nodes A) (ll : LinkedList) (pre : Cells A) (a : ℕ) (i : ℤ) (new : ℕ) (x y : A)
      (post : Cells A)
      → IsList h ll (pre ++ ((a, x) ∷ post))
      → h new ≡ none
      → (ll' : LinkedList) × (h' : Nodes A) × (insert_after new h (cursor ll a i) y
          ≡ some (true, cursor ll' a i, h'))
        × IsList h' ll' (pre ++ ((a, x) ∷ (new, y) ∷ post))
  insert_after_lem h ll pre a i new x y [] v free = insert_after_end h ll pre a i new x y v free
  insert_after_lem h ll pre a i new x y ((c, z) ∷ post) v free =
      insert_after_between h ll pre a i new c x y z post v free

  -- What comes next: NULL at the last node.
  abbrev pub following : LinkedList → ℕ → ℤ → Cells A → Ptr A × LinkedListIterator
  following ll a i [] = (none, cursor ll a i)
  following ll a i ((c, z) ∷ post) = (some z, cursor ll c (increased i))

  pub iterator_next_lem :
      (h : Nodes A) (ll : LinkedList) (pre : Cells A) (a : ℕ) (i : ℤ) (x : A) (post : Cells A)
      → IsList h ll (pre ++ ((a, x) ∷ post))
      → iterator_next h (cursor ll a i) ≡ some (following ll a i post)
  unfolding iterator_next
  iterator_next_lem h ll pre a i x [] v =
      let (_, (at_a, _)) = Seg-append h none none pre ((a, x) ∷ []) v.chain in
      rw (at_a, iterator_next) refl
  iterator_next_lem h ll pre a i x ((c, z) ∷ post) v =
      let (_, (at_a, (at_c, _))) = Seg-append h none none pre ((a, x) ∷ (c, z) ∷ post) v.chain in
      rw (at_a, iterator_next) (rw (at_c, iterator_next) refl)
