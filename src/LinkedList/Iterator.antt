-- ===== src/LinkedList/Iterator.antt =====
-- utility/LinkedList/LinkedList.c: the iterator, which goes both ways and changes the list at its place.
use seven_deadly_syns.Prelude.{zero, suc, ℕ, ◌+◌, Bool, true, false, Option, none, some, Ptr}
use seven_deadly_syns.LinkedList.{node, LinkedList, Nodes, write, set_forward, set_back, take_out}

-- An int that may be negative, with `++` and `--`.
pub data ℤ : Type 0 where
  pos : ℕ → ℤ
  negsuc : ℕ → ℤ

abbrev pub increased : ℤ → ℤ
increased (pos n) = pos (n + 1)
increased (negsuc zero) = pos 0
increased (negsuc (suc n)) = negsuc n

abbrev pub decreased : ℤ → ℤ
decreased (pos zero) = negsuc 0
decreased (pos (suc n)) = pos n
decreased (negsuc n) = negsuc (suc n)

-- `_LinkedListIterator`, with the list that it points to.
pub record LinkedListIterator : Type 0 where
  pub list : LinkedList
  pub ln : Ptr ℕ
  pub index : ℤ

-- linkedlistiterator_new
abbrev pub iterator_new : LinkedList → LinkedListIterator
iterator_new ll = record { list = ll; ln = none; index = pos 0 }

-- linkedlistiterator_reset
abbrev pub iterator_reset : LinkedListIterator → LinkedListIterator
iterator_reset lli = record lli { ln = none }

module _ {A : Type 0} where
  -- linkedlistiterator_next
  unfoldable pub iterator_next : Nodes A → LinkedListIterator → Option (Ptr A × LinkedListIterator)
  iterator_next h lli = elim (lli.ln) [
    | none ↦ elim (lli.list.root) [
      | none ↦ some (none, lli)
      | some root ↦ elim (h root) [
        | none ↦ none
        | some n ↦ some (some n.element, record lli { ln = some root; index = pos 0 })
      ]
    ]
    | some ln ↦ elim (h ln) [
      | none ↦ none
      | some n ↦ elim (n.forward) [
        | none ↦ some (none, lli)
        | some forward ↦ elim (h forward) [
          | none ↦ none
          | some n' ↦
              some (some n'.element, record lli { ln = some forward; index = increased lli.index })
        ]
      ]
    ]
  ]

  -- linkedlistiterator_current
  unfoldable pub iterator_current : Nodes A → LinkedListIterator → Option (Ptr A)
  iterator_current h lli = elim (lli.ln) [
    | none ↦ some none
    | some ln ↦ elim (h ln) [ none ↦ none | some n ↦ some (some n.element) ]
  ]

  -- linkedlistiterator_previous, which reads through NULL where the list is empty.
  unfoldable pub iterator_previous :
      Nodes A → LinkedListIterator → Option (Ptr A × LinkedListIterator)
  iterator_previous h lli = elim (lli.ln) [
    | none ↦ elim (lli.list.tail) [
      | none ↦ none
      | some tail ↦ elim (h tail) [
        | none ↦ none
        | some n ↦
            some
              (some n.element, record lli { ln = some tail; index = decreased (pos lli.list.size) })
      ]
    ]
    | some ln ↦ elim (h ln) [
      | none ↦ none
      | some n ↦ elim (n.back) [
        | none ↦ some (none, lli)
        | some back ↦ elim (h back) [
          | none ↦ none
          | some n' ↦
              some (some n'.element, record lli { ln = some back; index = decreased lli.index })
        ]
      ]
    ]
  ]

  -- linkedlistiterator_insert_before, with the address that malloc gives: whether there is a current node.
  unfoldable pub insert_before :
      ℕ → Nodes A → LinkedListIterator → A → Option (Bool × LinkedListIterator × Nodes A)
  unfolding write set_forward set_back
  insert_before new h lli element = elim (lli.ln) [
    | none ↦ some (false, lli, h)
    | some ln ↦ elim (h ln) [
      | none ↦ none
      | some n ↦ elim (n.back) [
        | none ↦ elim (set_back (write h new (some (node (some ln) none element))) ln (some new)) [
          | none ↦ none
          | some h' ↦ some (
            true,
            record lli {
              list = record (lli.list) { root = some new; size = lli.list.size + 1 };
              index = increased lli.index;
            },
            h',
          )
        ]
        | some back ↦
            elim (set_forward (write h new (some (node (some ln) (some back) element))) back
              (some new)) [
                | none ↦ none
                | some h' ↦ elim (set_back h' ln (some new)) [
                  | none ↦ none
                  | some h'' ↦ some (
                    true,
                    record lli {
                      list = record (lli.list) { size = lli.list.size + 1 };
                      index = increased lli.index;
                    },
                    h'',
                  )
                ]
              ]
      ]
    ]
  ]

  -- linkedlistiterator_insert_after
  unfoldable pub insert_after :
      ℕ → Nodes A → LinkedListIterator → A → Option (Bool × LinkedListIterator × Nodes A)
  unfolding write set_forward set_back
  insert_after new h lli element = elim (lli.ln) [
    | none ↦ some (false, lli, h)
    | some ln ↦ elim (h ln) [
      | none ↦ none
      | some n ↦ elim (n.forward) [
        | none ↦
            elim (set_forward (write h new (some (node none (some ln) element))) ln (some new)) [
              | none ↦ none
              | some h' ↦ some (
                true,
                record lli {
                  list = record (lli.list) { tail = some new; size = lli.list.size + 1 };
                },
                h',
              )
            ]
        | some forward ↦
            elim (set_back (write h new (some (node (some forward) (some ln) element))) forward
              (some new)) [
                | none ↦ none
                | some h' ↦ elim (set_forward h' ln (some new)) [
                  | none ↦ none
                  | some h'' ↦ some (
                    true,
                    record lli { list = record (lli.list) { size = lli.list.size + 1 } },
                    h'',
                  )
                ]
              ]
      ]
    ]
  ]

  -- linkedlistiterator_remove
  unfoldable pub iterator_remove :
      Nodes A → LinkedListIterator → Option (Ptr A × LinkedListIterator × Nodes A)
  unfolding take_out
  iterator_remove h lli = elim (lli.ln) [
    | none ↦ some (none, lli, h)
    | some ln ↦ elim (h ln) [
      | none ↦ none
      | some n ↦ elim (take_out lli.list h ln) [
        | none ↦ none
        | some (data_, ll, h') ↦
            some (data_, record { list = ll; ln = n.back; index = decreased lli.index }, h')
      ]
    ]
  ]
