-- ===== src/Queue/Contents.antt =====
-- The list that a queue stands for, and the representation invariant of `_Queue`.
use native.Mathlib.Numerals.{add-one}
use native.Mathlib.Nat.{zero-add, mod-eq_of_lt, mod-eq-sub-mod}
use native.Mathlib.Decide.{dec_lt}
use seven_deadly_syns.Prelude.{
  ℕ, ◌+◌, ◌-◌, ◌%◌, ◌≤◌, ◌<◌, ◌≡◌, ◌≢◌, if◌then◌else◌, ltb, none, List, Ptr, get_or, length,
  tabulate, arith, get_or-set_self, get_or-set_ne, suc, refl, sym, ap, ap₂, ◌∙◌, [], ◌∷◌, ◌++◌,
  tabulate-ext, tabulate-snoc,
}
use seven_deadly_syns.Queue.{Queue, slot, write}

-- An index that passes the end of the array at most once.
pub mod_wrap : (n s : ℕ) → n < s + s → n % s ≡ (if ltb n s then n else n - s)
mod_wrap n s h = elim (dec_lt n s) [
  | yes lt ↦ ground (arith, mod-eq_of_lt lt)
  | no ge ↦ ground (
    arith,
    mod-eq-sub-mod {n = n} {m = s} (omega arith),
    mod-eq_of_lt {n = n - s} {m = s} (omega arith),
  )
]

module _ {A : Type 0} where
  -- The element at position `i`, counted from the tail.
  abbrev pub cell : Queue A → ℕ → Ptr A
  cell q i = get_or q.elements (slot q i) none

  -- Oldest first.
  abbrev pub contents : Queue A → List (Ptr A)
  contents q = tabulate (cell q) 0 q.length

module _ {A : Type 0} where
  pub record IsValid (q : Queue A) : Type 0 where
    pub allocated : length q.elements ≡ q.space
    pub tail_in : q.tail < q.space
    pub fits : q.length ≤ q.space
    pub head_at : q.head ≡ (q.tail + q.length) % q.space

module _ {A : Type 0} {q : Queue A} (v : IsValid q) where
  -- Every position below the space has its slot, inside the array.
  pub slot_in : (i : ℕ) → slot q i < q.space
  slot_in i = omega (arith, v.tail_in)

  pub slot_wrap :
      (i : ℕ)
      → i ≤ q.space
      → slot q i ≡ (if ltb (i + q.tail) q.space then i + q.tail else i + q.tail - q.space)
  slot_wrap i h = mod_wrap (i + q.tail) q.space (omega (arith, v.tail_in))

  pub slot-ne : (i j : ℕ) → i < q.space → j < q.space → i ≢ j → slot q i ≢ slot q j
  slot-ne i j hi hj ne = ground (arith, slot_wrap i, slot_wrap j, v.tail_in, hi, hj, ne)

  pub cell-write_self : (i : ℕ) (e : Ptr A) → cell (write q (slot q i) e) i ≡ e
  cell-write_self i e =
      get_or-set_self q.elements (slot q i) e none (omega (arith, slot_in i, v.allocated))

  pub cell-write_ne :
      (i j : ℕ) (e : Ptr A)
      → i < q.space
      → j < q.space
      → i ≢ j
      → cell (write q (slot q i) e) j ≡ cell q j
  cell-write_ne i j e hi hj ne =
      get_or-set_ne q.elements (slot q i) (slot q j) e none (slot-ne i j hi hj ne)

module _ {A : Type 0} where
  -- A further element just past the last one.
  pub contents-extend :
      (q r : Queue A) (e : Ptr A)
      → r.length ≡ q.length + 1
      → ((i : ℕ) → i < q.length → cell r i ≡ cell q i)
      → cell r q.length ≡ e
      → contents r ≡ contents q ++ (e ∷ [])
  contents-extend q r e len same last =
      ap (tabulate (cell r) 0) (len ∙ add-one q.length)
      ∙ tabulate-snoc (cell r) q.length 0
      ∙ ap₂ (λ xs x. xs ++ (x ∷ []))
          (tabulate-ext (cell r) (cell q) q.length 0 0
            (λ k h. let k0 : k + 0 ≡ k = omega arith in rw k0 (same k h)))
          (rw zero-add last)

  -- A queue that holds the same elements at the same positions.
  pub contents-same :
      (q r : Queue A)
      → r.length ≡ q.length
      → ((i : ℕ) → i < q.length → cell r i ≡ cell q i)
      → contents r ≡ contents q
  contents-same q r len same =
      ap (tabulate (cell r) 0) len
      ∙ tabulate-ext (cell r) (cell q) q.length 0 0
          (λ k h. let k0 : k + 0 ≡ k = omega arith in rw k0 (same k h))

  pub contents-shorter :
      (q r : Queue A) (n : ℕ)
      → q.length ≡ suc n
      → r.length ≡ n
      → ((i : ℕ) → i < n → cell r i ≡ cell q i)
      → contents q ≡ contents r ++ (cell q n ∷ [])
  contents-shorter q r n len len' same =
      ap (tabulate (cell q) 0) len
      ∙ tabulate-snoc (cell q) n 0
      ∙ ap₂ (λ xs x. xs ++ (x ∷ []))
          (tabulate-ext (cell q) (cell r) n 0 0
              (λ k h. let k0 : k + 0 ≡ k = omega arith in rw k0 (sym (same k h)))
            ∙ ap (tabulate (cell r) 0) (sym len'))
          (rw zero-add refl)

  pub contents-tail :
      (q r : Queue A) (n : ℕ)
      → q.length ≡ suc n
      → r.length ≡ n
      → ((i : ℕ) → i < n → cell r i ≡ cell q (i + 1))
      → contents q ≡ cell q 0 ∷ contents r
  contents-tail q r n len len' same =
      ap (tabulate (cell q) 0) len
      ∙ ap (◌∷◌ (cell q 0)) (
          tabulate-ext (cell q) (cell r) n (0 + 1) 0 (λ k h.
            let k0 : k + 0 ≡ k = omega arith in
            let k1 : k + (0 + 1) ≡ k + 1 = omega arith in rw (k0, k1, same k h))
          ∙ ap (tabulate (cell r) 0) (sym len'))

  pub contents-empty : (q : Queue A) → q.length ≡ 0 → contents q ≡ []
  contents-empty q e = ap (tabulate (cell q) 0) e
