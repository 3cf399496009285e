-- ===== src/Queue/Access.antt =====
-- queue_get, queue_set, queue_swap and queue_shuffle against the list of the elements.
use mathlib.Core.Path.{subst}
use mathlib.Core.List.{Perm}
use mathlib.Core.List.Perm
use native.Mathlib.Nat.{zero-add}
use native.Mathlib.Decide.{ℕ_discrete}
use seven_deadly_syns.Prelude.{
  ℕ, zero, suc, ◌-◌, ◌%◌, ◌<◌, ◌≡◌, refl, sym, ap, ap₂, ◌∙◌, none, List, [], ◌∷◌, Ptr, length,
  length-set, arith, length-tabulate, set, get_or, list-ext, get_or-tabulate, get_or-set_self,
  get_or-set_ne,
}
use seven_deadly_syns.Queue.{Queue, slot, write, get, set_at, swap, shuffle_from, shuffle}
use seven_deadly_syns.Queue.Contents.{cell, contents, IsValid, cell-write_self, cell-write_ne}

module _ {A : Type 0} where
  write-IsValid : (q : Queue A) (k : ℕ) (e : Ptr A) → IsValid q → IsValid (write q k e)
  write-IsValid q k e v = record {
    allocated = length-set q.elements k e ∙ v.allocated;
    tail_in = v.tail_in;
    fits = v.fits;
    head_at = v.head_at;
  }

  -- queue_get reads the element at the index.
  pub get_lem : (q : Queue A) (k : ℕ) → k < q.length → get q k ≡ get_or (contents q) k none
  unfolding get
  get_lem q k h = sym (get_or-tabulate (cell q) q.length 0 k none h ∙ ap (cell q) (zero-add k))

  -- queue_set replaces the element at the index and no other.
  pub set_at_lem :
      (q : Queue A) (e : Ptr A) (k : ℕ)
      → IsValid q
      → k < q.length
      → IsValid (set_at q e k) × (contents (set_at q e k) ≡ set (contents q) k e)
  unfolding set_at
  set_at_lem q e k v h = (
    write-IsValid q (slot q k) e v,
    list-ext _ _ none
        (length-tabulate _ 0 q.length
          ∙ sym (length-set (contents q) k e ∙ length-tabulate (cell q) 0 q.length))
        (λ j hj.
          let hj' : j < q.length =
            omega (arith, length-tabulate (cell (set_at q e k)) 0 q.length) in
          get_or-tabulate (cell (set_at q e k)) q.length 0 j none hj'
          ∙ ap (cell (set_at q e k)) (zero-add j)
          ∙ elim (ℕ_discrete k j) [
            | yes same ↦ rw (← same) (
                cell-write_self v k e
                ∙ sym (
                    get_or-set_self (contents q) k e none
                      (omega (arith, length-tabulate (cell q) 0 q.length))))
            | no other ↦
                cell-write_ne v k j e (omega (arith, v.fits)) (omega (arith, v.fits)) other
                ∙ sym (
                    get_or-set_ne (contents q) k j e none other
                    ∙ get_or-tabulate (cell q) q.length 0 j none hj'
                    ∙ ap (cell q) (zero-add j))
          ]),
  )

  perm_swap :
      (xs : List (Ptr A)) (i : ℕ) (e : Ptr A)
      → i < length xs
      → Perm (get_or xs i none ∷ set xs i e) (e ∷ xs)
  perm_swap [] i e h = elim h [ ]
  perm_swap (x ∷ xs) zero e h = Perm.swap e x xs
  perm_swap (x ∷ xs) (suc i) e h =
      Perm.trans (Perm.swap x (get_or xs i none) (set xs i e))
        (Perm.trans (Perm.cons x (perm_swap xs i e (omega arith))) (Perm.swap e x xs))

  -- Exchanging two elements permutes the list.
  swap-perm :
      (xs : List (Ptr A)) (i j : ℕ)
      → i < length xs
      → j < length xs
      → Perm (set (set xs i (get_or xs j none)) j (get_or xs i none)) xs
  swap-perm xs i j hi hj =
      Perm.cons_inv {a = get_or xs j none}
        (Perm.trans second (perm_swap xs i (get_or xs j none) hi))
    where
      ys : List (Ptr A)
      ys = set xs i (get_or xs j none)

      at_j : get_or ys j none ≡ get_or xs j none
      at_j = elim (ℕ_discrete i j) [
        | yes same ↦ rw same (get_or-set_self xs j (get_or xs j none) none hj)
        | no other ↦ get_or-set_ne xs i j (get_or xs j none) none other
      ]

      second : Perm (get_or xs j none ∷ set ys j (get_or xs i none)) (get_or xs i none ∷ ys)
      second =
          subst (λ e. Perm (e ∷ set ys j (get_or xs i none)) (get_or xs i none ∷ ys)) at_j
            (perm_swap ys j (get_or xs i none) (omega (arith, length-set xs i (get_or xs j none))))

  length-swap : (q : Queue A) (i j : ℕ) → (swap q i j).length ≡ q.length
  unfolding swap
  length-swap q i j = refl

  -- queue_swap exchanges the elements at the two indices.
  swap_lem :
      (q : Queue A) (i j : ℕ)
      → IsValid q
      → i < q.length
      → j < q.length
      → IsValid (swap q i j)
        × (contents (swap q i j)
            ≡ set (set (contents q) i (get_or (contents q) j none)) j (get_or (contents q) i none))
  swap_lem q i j v hi hj =
      let (v1, first) = set_at_lem q (get q j) i v hi in
      let (v2, second) = set_at_lem (set_at q (get q j) i) (get q i) j v1 (unfold set_at in hj) in
      unfold swap in
      (
        v2,
        second
            ∙ ap₂ (λ xs e. set xs j e) (first ∙ ap (set (contents q) i) (get_lem q j hj))
                (get_lem q i hi),
      )

  shuffle_from_lem :
      (rand : ℕ → ℕ) (i : ℕ) (q : Queue A)
      → IsValid q
      → i < q.length
      → IsValid (shuffle_from rand i q) × Perm (contents (shuffle_from rand i q)) (contents q)
  unfolding shuffle_from
  shuffle_from_lem rand zero q v h = (v, Perm.refl (contents q))
  shuffle_from_lem rand (suc i) q v h =
      let j : ℕ = rand (suc i) % suc i in
      let hj : j < q.length = omega arith in
      let (v1, swapped) = swap_lem q (suc i) j v h hj in
      let (v2, rest) =
        shuffle_from_lem rand i (swap q (suc i) j) v1 (omega (arith, length-swap q (suc i) j)) in
      (
        v2,
        Perm.trans rest (
            rw swapped (
              swap-perm (contents q) (suc i) j (omega (arith, length-tabulate (cell q) 0 q.length))
                (omega (arith, length-tabulate (cell q) 0 q.length)))),
      )

  -- queue_shuffle leaves the queue valid, with the same elements in some order, whatever rand
  -- returns.
  shuffle_lem :
      (rand : ℕ → ℕ) (q : Queue A)
      → IsValid q
      → IsValid (shuffle rand q) × Perm (contents (shuffle rand q)) (contents q)
  unfolding shuffle shuffle_from
  shuffle_lem rand q v = elim (ℕ_discrete q.length 0) [
    | yes empty ↦
        subst
          (λ n.
            IsValid (shuffle_from rand n q) × Perm (contents (shuffle_from rand n q)) (contents q))
          (let e : 0 ≡ q.length - 1 = omega arith in e) (v, Perm.refl (contents q))
    | no more ↦ shuffle_from_lem rand (q.length - 1) q v (omega arith)
  ]
