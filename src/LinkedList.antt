-- ===== src/LinkedList.antt =====
-- utility/LinkedList/LinkedList.c: the doubly linked list, over an explicit heap. An address is a number,
-- NULL is none; an address that malloc did not give or that was freed holds nothing, and reading or
-- writing it gives `none`. A search function with its key is a test.
pub mod Heap
pub mod Unlink
pub mod Refine
pub mod Run
pub mod Iterator
pub mod Cursor
pub mod Before
mod Tests
use seven_deadly_syns.Prelude.{
  ℕ, zero, suc, ◌+◌, ◌-◌, ◌==◌, Bool, true, false, if◌then◌else◌, Option, none, some, List, [], ◌∷◌,
  Ptr,
}

-- `_LinkedNode`
pub record LinkedNode (A : Type 0) : Type 0 where
  pub forward : Ptr ℕ
  pub back : Ptr ℕ
  pub element : A

abbrev pub node : {A : Type 0} → Ptr ℕ → Ptr ℕ → A → LinkedNode A
node forward back element = record { forward = forward; back = back; element = element }

-- `_LinkedList`
pub record LinkedList : Type 0 where
  pub root : Ptr ℕ
  pub tail : Ptr ℕ
  pub size : ℕ

-- linkedlist_new; `tail` is what malloc left there.
abbrev pub linkedlist_new : Ptr ℕ → LinkedList
linkedlist_new tail = record { root = none; tail = tail; size = 0 }

-- What each address holds.
abbrev pub Nodes : Type 0 → Type 0
Nodes A = ℕ → Ptr (LinkedNode A)

unfoldable pub write : {A : Type 0} → Nodes A → ℕ → Ptr (LinkedNode A) → Nodes A
write h a v i = if i == a then v else h i

module _ {A : Type 0} where
  -- `p->forward = q` and `p->back = q`
  unfoldable pub set_forward : Nodes A → ℕ → Ptr ℕ → Option (Nodes A)
  unfolding write
  set_forward h a q = elim (h a) [
    | none ↦ none
    | some n ↦ some (write h a (some (node q n.back n.element)))
  ]

  unfoldable pub set_back : Nodes A → ℕ → Ptr ℕ → Option (Nodes A)
  unfolding write
  set_back h a q = elim (h a) [
    | none ↦ none
    | some n ↦ some (write h a (some (node n.forward q n.element)))
  ]

  -- linkednode_search, on fuel: the node, or NULL.
  unfoldable pub linkednode_search : ℕ → Nodes A → (A → Bool) → ℕ → Option (Ptr ℕ)
  linkednode_search zero h f n = none
  linkednode_search (suc fuel) h f n = elim (h n) [
    | none ↦ none
    | some ln ↦
        if f ln.element
        then some (some n)
        else elim (ln.forward) [ none ↦ some none | some next ↦ linkednode_search fuel h f next ]
  ]

  -- linkednode_unlink
  unfoldable pub linkednode_unlink : Nodes A → ℕ → Option (Nodes A)
  unfolding set_forward set_back
  linkednode_unlink h n = elim (h n) [
    | none ↦ none
    | some ln ↦ elim (ln.back) [
      | none ↦ elim (ln.forward) [ none ↦ some h | some forward ↦ set_back h forward none ]
      | some back ↦ elim (ln.forward) [
        | none ↦ set_forward h back none
        | some forward ↦ elim (set_forward h back (some forward)) [
          | none ↦ none
          | some h' ↦ set_back h' forward (some back)
        ]
      ]
    ]
  ]

  -- linkedlist_append, with the address that malloc gives.
  unfoldable pub linkedlist_append : ℕ → LinkedList → Nodes A → A → Option (LinkedList × Nodes A)
  unfolding write set_forward
  linkedlist_append new ll h element = elim (ll.root) [
    | none ↦ some (
      record { root = some new; tail = some new; size = ll.size + 1 },
      write h new (some (node none none element)),
    )
    | some root ↦ elim (ll.tail) [
      | none ↦ none
      | some tail ↦
          elim (set_forward (write h new (some (node none (some tail) element))) tail (some new)) [
            | none ↦ none
            | some h' ↦ some (record ll { tail = some new; size = ll.size + 1 }, h')
          ]
    ]
  ]

  -- The end of linkedlist_remove, from linkednode_unlink on, for the node that was found.
  unfoldable pub take_out : LinkedList → Nodes A → ℕ → Option (Ptr A × LinkedList × Nodes A)
  unfolding linkednode_unlink write
  take_out ll h n = elim (linkednode_unlink h n) [
    | none ↦ none
    | some h' ↦ elim (h' n) [
      | none ↦ none
      | some ln ↦ some (
        some ln.element,
        record {
          root = elim (ln.back) [ none ↦ ln.forward | some back ↦ ll.root ];
          tail = elim (ln.forward) [ none ↦ ln.back | some forward ↦ ll.tail ];
          size = ll.size - 1;
        },
        write h' n none,
      )
    ]
  ]

  -- linkedlist_remove
  unfoldable pub linkedlist_remove :
      ℕ → LinkedList → Nodes A → (A → Bool) → Option (Ptr A × LinkedList × Nodes A)
  unfolding linkednode_search take_out
  linkedlist_remove fuel ll h f = elim (ll.root) [
    | none ↦ some (none, ll, h)
    | some root ↦ elim (linkednode_search fuel h f root) [
      | none ↦ none
      | some none ↦ some (none, ll, h)
      | some (some n) ↦ take_out ll h n
    ]
  ]

  -- linkedlist_get
  unfoldable pub linkedlist_get : ℕ → LinkedList → Nodes A → (A → Bool) → Option (Ptr A)
  unfolding linkednode_search
  linkedlist_get fuel ll h f = elim (ll.root) [
    | none ↦ some none
    | some root ↦ elim (linkednode_search fuel h f root) [
      | none ↦ none
      | some none ↦ some none
      | some (some n) ↦ elim (h n) [ none ↦ none | some ln ↦ some (some ln.element) ]
    ]
  ]

  -- The loop of linkedlist_remove_all, on fuel.
  unfoldable pub free_all : ℕ → Nodes A → Ptr ℕ → Option (Nodes A)
  unfolding write
  free_all zero h ln = none
  free_all (suc fuel) h none = some h
  free_all (suc fuel) h (some n) = elim (h n) [
    | none ↦ none
    | some ln ↦ free_all fuel (write h n none) ln.forward
  ]

  -- linkedlist_remove_all
  unfoldable pub linkedlist_remove_all : ℕ → LinkedList → Nodes A → Option (LinkedList × Nodes A)
  unfolding free_all
  linkedlist_remove_all fuel ll h = elim (free_all fuel h ll.root) [
    | none ↦ none
    | some h' ↦ some (record { root = none; tail = none; size = 0 }, h')
  ]
