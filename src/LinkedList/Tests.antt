-- ===== src/LinkedList/Tests.antt =====
-- The theorems of LinkedList at a list of numbers.
use seven_deadly_syns.Prelude.{if◌then◌else◌, true, ℕ, ◌==◌, ◌≡◌, refl, none, some, List, [], ◌∷◌}
use seven_deadly_syns.LinkedList.{write, linkedlist_new, linkedlist_append, linkedlist_remove}
use seven_deadly_syns.LinkedList.{LinkedList, Nodes, node}
use seven_deadly_syns.LinkedList.Heap.{last}
use seven_deadly_syns.LinkedList.Refine.{IsList}
use seven_deadly_syns.Prelude.{Option, Ptr}
use seven_deadly_syns.LinkedList.Iterator.{
  ℤ, pos, negsuc, LinkedListIterator, insert_before, insert_after, iterator_remove, iterator_next,
}
use seven_deadly_syns.LinkedList.Cursor.{cursor, following}
use seven_deadly_syns.LinkedList.Before.{iterator_lem}
use seven_deadly_syns.LinkedList.Run.{
  Call, appends, removes, gets, run, run_list, step, AreFree, linked_list_lem,
}

-- Three appends, at 7, 5 and 9; the removal of the second; an append at its address; two searches.
abbrev calls : List (Call ℕ)
calls =
    appends 7 10
    ∷ appends 5 20
    ∷ appends 9 30
    ∷ removes (λ x. x == 20)
    ∷ appends 5 40
    ∷ gets (λ x. x == 40)
    ∷ removes (λ x. x == 20)
    ∷ []

calls-AreFree : AreFree calls (linkedlist_new (some 3)) (λ a. none)
unfolding step linkedlist_append linkedlist_remove write
calls-AreFree = (refl, (refl, (refl, (tt, (refl, (tt, (tt, tt)))))))

linked_list_lem_example : run calls (linkedlist_new (some 3)) (λ a. none) ≡ some (run_list calls [])
linked_list_lem_example = linked_list_lem calls (some 3) (λ a. none) calls-AreFree

run_results :
    run calls (linkedlist_new (some 3)) (λ a. none)
    ≡ some (none ∷ none ∷ none ∷ some 20 ∷ none ∷ some 40 ∷ none ∷ [])
unfolding run step
run_results = refl

-- A list of two nodes, at 7 and 5.
abbrev two_nodes : Nodes ℕ
two_nodes a =
    if a == 7
    then some (node (some 5) none 10)
    else if a == 5
    then some (node none (some 7) 20)
    else none

abbrev two_list : LinkedList
two_list = record { root = some 7; tail = some 5; size = 2 }

two_nodes-IsList : IsList two_nodes two_list ((7, 10) ∷ (5, 20) ∷ [])
two_nodes-IsList = record {
  root = refl;
  tail = refl;
  chain = (refl, (refl, tt));
  distinct = (refl, (refl, tt));
  size = refl;
}

iterator_lem_example :
    ((ll' : LinkedList) × (h' : Nodes ℕ) × (insert_before 9 two_nodes (cursor two_list 5 (pos 1)) 30
        ≡ some (true, cursor ll' 5 (pos 2), h'))
      × IsList h' ll' ((7, 10) ∷ (9, 30) ∷ (5, 20) ∷ []))
    × ((ll' : LinkedList) × (h' : Nodes ℕ) × (insert_after 9 two_nodes
            (cursor two_list 5 (pos 1))
            30
          ≡ some (true, cursor ll' 5 (pos 1), h'))
        × IsList h' ll' ((7, 10) ∷ (5, 20) ∷ (9, 30) ∷ []))
    × ((ll' : LinkedList) × (h' : Nodes ℕ) × (iterator_remove two_nodes (cursor two_list 5 (pos 1))
          ≡ some (
            some 20,
            record { list = ll'; ln = last {A = ℕ} none ((7, 10) ∷ []); index = pos 0 },
            h',
          ))
        × IsList h' ll' ((7, 10) ∷ []))
    × (iterator_next two_nodes (cursor two_list 5 (pos 1)) ≡ some (following two_list 5 (pos 1) []))
iterator_lem_example =
    iterator_lem two_nodes two_list ((7, 10) ∷ []) 5 (pos 1) 9 20 30 [] two_nodes-IsList refl

-- The removal of the first node, and the index then.
abbrev index_after : Option (Ptr ℕ × LinkedListIterator × Nodes ℕ) → Option ℤ
index_after none = none
index_after (some (x, lli, h)) = some lli.index

first_removed :
    index_after (iterator_remove two_nodes (cursor two_list 7 (pos 0))) ≡ some (negsuc 0)
unfolding iterator_remove
first_removed = refl
