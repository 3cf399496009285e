-- ===== src/LinkedList/Before.antt =====
-- linkedlistiterator_insert_before, and all that an iterator does at its node.
use seven_deadly_syns.Prelude.{
  ℕ, ◌+◌, ◌==◌, ◌≡◌, refl, sym, ap, ◌∙◌, true, false, none, some, [], ◌∷◌, ◌++◌, length-append, Ptr,
  arith,
}
use seven_deadly_syns.LinkedList.{LinkedNode, node, LinkedList, Nodes, write, set_forward}
use seven_deadly_syns.LinkedList.Heap.{
  Cells, first, last, Seg-append, append-Seg, Seg-write, redirect, rejoin, has_address_apart,
  Distinct-append,
}
use seven_deadly_syns.LinkedList.Unlink.{
  set_forward_lem, set_back_lem, write_other, missed, swapped,
}
use seven_deadly_syns.LinkedList.Refine.{IsList, last-append}
use seven_deadly_syns.LinkedList.Run.{fresh_address, write_self}
use seven_deadly_syns.LinkedList.Iterator.{
  ℤ, increased, decreased, iterator_next, insert_after, insert_before, iterator_remove,
}
use seven_deadly_syns.LinkedList.Cursor.{
  before, part, Distinct-insert, cursor, iterator_remove_lem, insert_after_lem, following,
  iterator_next_lem,
}

module _ {A : Type 0} where
  insert_before_first :
      (h : Nodes A) (ll : LinkedList) (a : ℕ) (i : ℤ) (new : ℕ) (x y : A) (post : Cells A)
      → IsList h ll ((a, x) ∷ post)
      → h new ≡ none
      → (ll' : LinkedList) × (h' : Nodes A) × (insert_before new h (cursor ll a i) y
          ≡ some (true, cursor ll' a (increased i), h'))
        × IsList h' ll' ((new, y) ∷ (a, x) ∷ post)
  unfolding insert_before
  insert_before_first h ll a i new x y post v free =
      let (at_a, rest) = v.chain in
      let away = fresh_address h none none ((a, x) ∷ post) new free v.chain in
      let (not_a, _) = missed new a x post away in
      let v1 = some (node (some a) none y) in
      let h1 = write h new v1 in
      let chain1 = Seg-write h none none ((a, x) ∷ post) new v1 away v.chain in
      let h2 = write h1 a (some (node (first post none) (some new) x)) in
      (
        record ll { root = some new; size = ll.size + 1 },
        h2,
        rw (at_a, insert_before)
            (rw
              (set_back_lem h1 a (node (first post none) none x) (some new) chain1.0, insert_before)
              refl),
        record {
          root = refl;
          tail = v.tail;
          chain = (
            write_other h1 new a _ not_a ∙ write_self h new v1,
            rejoin h1 none (some new) none a x post chain1 v.distinct,
          );
          distinct = (away, v.distinct);
          size = omega (arith, v.size);
        },
      )

  insert_before_between :
      (h : Nodes A) (ll : LinkedList) (k : ℕ) (z : A) (pre : Cells A) (a : ℕ) (i : ℤ) (new : ℕ)
      (x y : A) (post : Cells A)
      → IsList h ll (((k, z) ∷ pre) ++ ((a, x) ∷ post))
      → h new ≡ none
      → (ll' : LinkedList) × (h' : Nodes A) × (insert_before new h (cursor ll a i) y
          ≡ some (true, cursor ll' a (increased i), h'))
        × IsList h' ll' (((k, z) ∷ pre) ++ ((new, y) ∷ (a, x) ∷ post))
  unfolding insert_before
  insert_before_between h ll k z pre a i new x y post v free =
      let all : Cells A = (k, z) ∷ pre in
      let away = fresh_address h none none (all ++ ((a, x) ∷ post)) new free v.chain in
      let (not_pre, not_rest) = part new all ((a, x) ∷ post) away in
      let (not_a, not_post) = missed new a x post not_rest in
      let (dpre, (a_away, dpost), apart) = Distinct-append all ((a, x) ∷ post) v.distinct in
      let a_pre = before all a x post v.distinct in
      let (front, (at_a, rest)) = Seg-append h none none all ((a, x) ∷ post) v.chain in
      let v1 : Ptr (LinkedNode A) = some (node (some a) (last none all) y) in
      let h1 = write h new v1 in
      let (e, n, end, at_e, here, changed) =
        redirect h1 none (some a) k z pre (Seg-write h none (some a) all new v1 not_pre front)
          dpre in
      let new_e : (new == e) ≡ false = has_address_apart all new e not_pre here in
      let (e_a, e_post) = missed e a x post (apart e here) in
      let v2 = some (node (some new) n.back n.element) in
      let h2 = write h1 e v2 in
      let v3 = some (node (first post none) (some new) x) in
      let h3 = write h2 a v3 in
      let at_a2 : h2 a ≡ some (node (first post none) (last none all) x) =
        write_other h1 a e v2 (swapped e a e_a)
        ∙ write_other h a new v1 (swapped new a not_a)
        ∙ at_a in
      let rest2 =
        Seg-write h1 (some a) none post e v2 e_post
          (Seg-write h (some a) none post new v1 not_post rest) in
      let there : h a ≡ some (node (first post none) (some e) x) =
        at_a ∙ ap (λ b. some (node (first post none) b x)) end in
      let linked : set_forward (write h new (some (node (some a) (some e) y))) e (some new)
          ≡ some h2 =
        ap (λ b. set_forward (write h new (some (node (some a) b y))) e (some new)) (sym end)
        ∙ set_forward_lem h1 e n (some new) at_e in
      (
        record ll { size = ll.size + 1 },
        h3,
        rw (there, insert_before)
            (rw (linked, insert_before)
              (rw
                (
                  set_back_lem h2 a (node (first post none) (last none all) x) (some new) at_a2,
                  insert_before,
                )
                refl)),
        record {
          root = v.root;
          tail =
              v.tail
              ∙ last-append ll.tail all ((a, x) ∷ post)
              ∙ sym (last-append ll.tail all ((new, y) ∷ (a, x) ∷ post));
          chain =
              append-Seg h3 none none all ((new, y) ∷ (a, x) ∷ post)
                (Seg-write h2 none (some new) all a v3 a_pre (changed (some new)))
                (
                  write_other h2 new a v3 not_a
                      ∙ write_other h1 new e v2 new_e
                      ∙ write_self h new v1,
                  rejoin h2 (last none all) (some new) none a x post (at_a2, rest2) (a_away, dpost),
                );
          distinct = Distinct-insert all ((a, x) ∷ post) new y v.distinct away;
          size = omega (
            arith,
            v.size,
            length-append all ((a, x) ∷ post),
            length-append all ((new, y) ∷ (a, x) ∷ post),
          );
        },
      )

  insert_before_lem :
      (h : Nodes A) (ll : LinkedList) (pre : Cells A) (a : ℕ) (i : ℤ) (new : ℕ) (x y : A)
      (post : Cells A)
      → IsList h ll (pre ++ ((a, x) ∷ post))
      → h new ≡ none
      → (ll' : LinkedList) × (h' : Nodes A) × (insert_before new h (cursor ll a i) y
          ≡ some (true, cursor ll' a (increased i), h'))
        × IsList h' ll' (pre ++ ((new, y) ∷ (a, x) ∷ post))
  insert_before_lem h ll [] a i new x y post v free =
      insert_before_first h ll a i new x y post v free
  insert_before_lem h ll ((k, z) ∷ pre) a i new x y post v free =
      insert_before_between h ll k z pre a i new x y post v free

  -- An iterator at a node `a` with element `x`, after the nodes `pre` and before `post`, and an address that
  -- holds nothing: linkedlistiterator_insert_before puts the new element between `pre` and the node and adds
  -- 1 to the index, linkedlistiterator_insert_after puts it behind the node, and both stay at the node;
  -- linkedlistiterator_remove gives `x`, takes the node out, goes back to the last node of `pre`, or
  -- to NULL, and takes 1 from the index, which may then be -1; linkedlistiterator_next gives the first
  -- element of `post`, goes there and adds 1 to the index, or gives NULL and stays where `post` is empty.
  -- None reads or writes where no node is, and each that changes the list leaves one with its root, tail and
  -- size.
  pub iterator_lem :
      (h : Nodes A) (ll : LinkedList) (pre : Cells A) (a : ℕ) (i : ℤ) (new : ℕ) (x y : A)
      (post : Cells A)
      → IsList h ll (pre ++ ((a, x) ∷ post))
      → h new ≡ none
      → ((ll' : LinkedList) × (h' : Nodes A) × (insert_before new h (cursor ll a i) y
            ≡ some (true, cursor ll' a (increased i), h'))
          × IsList h' ll' (pre ++ ((new, y) ∷ (a, x) ∷ post)))
        × ((ll' : LinkedList) × (h' : Nodes A) × (insert_after new h (cursor ll a i) y
              ≡ some (true, cursor ll' a i, h'))
            × IsList h' ll' (pre ++ ((a, x) ∷ (new, y) ∷ post)))
        × ((ll' : LinkedList) × (h' : Nodes A) × (iterator_remove h (cursor ll a i)
              ≡ some (some x, record { list = ll'; ln = last none pre; index = decreased i }, h'))
            × IsList h' ll' (pre ++ post))
        × (iterator_next h (cursor ll a i) ≡ some (following ll a i post))
  iterator_lem h ll pre a i new x y post v free = (
    insert_before_lem h ll pre a i new x y post v free,
    insert_after_lem h ll pre a i new x y post v free,
    iterator_remove_lem h ll pre a i x post v,
    iterator_next_lem h ll pre a i x post v,
  )
