-- ===== src/LinkedList/Heap.antt =====
-- The nodes of a doubly linked list on a heap, and writing to them.
use seven_deadly_syns.Prelude.{
  ℕ, ◌==◌, ◌≡◌, refl, sym, ap, ◌∙◌, Bool, true, false, if◌then◌else◌, some, List, [], ◌∷◌, ◌++◌,
  Ptr, arith, Bool-cases, ==_iff, inl, inr,
}
use seven_deadly_syns.LinkedList.{LinkedNode, node, Nodes, write}

-- The addresses and the elements, in order.
abbrev pub Cells : Type 0 → Type 0
Cells A = List (ℕ × A)

module _ {A : Type 0} where
  abbrev pub elements : Cells A → List A
  elements [] = []
  elements ((a, x) ∷ cs) = x ∷ elements cs

  abbrev pub has_address : ℕ → Cells A → Bool
  has_address k [] = false
  has_address k ((a, x) ∷ cs) = if k == a then true else has_address k cs

  abbrev pub Distinct : Cells A → Type 0
  Distinct [] = Unit {0}
  Distinct ((a, x) ∷ cs) = (has_address a cs ≡ false) × Distinct cs

  -- The address of the first cell and that of the last, with what there is if there is none.
  abbrev pub first : Cells A → Ptr ℕ → Ptr ℕ
  first [] p = p
  first ((a, x) ∷ cs) p = some a

  abbrev pub last : Ptr ℕ → Cells A → Ptr ℕ
  last p [] = p
  last p ((a, x) ∷ cs) = last (some a) cs

  -- The cells from `p` on, between a node `b` and a node `q`.
  abbrev pub Seg : Nodes A → Ptr ℕ → Cells A → Ptr ℕ → Type 0
  Seg h b [] q = Unit {0}
  Seg h b ((a, x) ∷ cs) q = (h a ≡ some (node (first cs q) b x)) × Seg h (some a) cs q

  pub first-append : (xs ys : Cells A) (q : Ptr ℕ) → first (xs ++ ys) q ≡ first xs (first ys q)
  first-append [] ys q = refl
  first-append ((a, x) ∷ xs) ys q = refl

  pub Seg-append :
      (h : Nodes A) (b q : Ptr ℕ) (xs ys : Cells A)
      → Seg h b (xs ++ ys) q
      → Seg h b xs (first ys q) × Seg h (last b xs) ys q
  Seg-append h b q [] ys s = (tt, s)
  Seg-append h b q ((a, x) ∷ xs) ys (at_a, s) =
      let (front, rest) = Seg-append h (some a) q xs ys s in
      ((at_a ∙ ap (λ p. some (node p b x)) (first-append xs ys q), front), rest)

  pub append-Seg :
      (h : Nodes A) (b q : Ptr ℕ) (xs ys : Cells A)
      → Seg h b xs (first ys q)
      → Seg h (last b xs) ys q
      → Seg h b (xs ++ ys) q
  append-Seg h b q [] ys tt s = s
  append-Seg h b q ((a, x) ∷ xs) ys (at_a, front) s = (
    at_a ∙ ap (λ p. some (node p b x)) (sym (first-append xs ys q)),
    append-Seg h (some a) q xs ys front s,
  )

  -- A write elsewhere.
  pub Seg-write :
      (h : Nodes A) (b q : Ptr ℕ) (cs : Cells A) (k : ℕ) (v : Ptr (LinkedNode A))
      → has_address k cs ≡ false
      → Seg h b cs q
      → Seg (write h k v) b cs q
  unfolding write
  Seg-write h b q [] k v away s = tt
  Seg-write h b q ((a, x) ∷ cs) k v away (at_a, s) =
      (ground (arith, away, at_a), Seg-write h (some a) q cs k v (ground (arith, away)) s)

  pub has_address_apart :
      (cs : Cells A) (k a : ℕ)
      → has_address k cs ≡ false
      → has_address a cs ≡ true
      → (k == a) ≡ false
  has_address_apart cs k a away here = elim (Bool-cases (k == a)) [
    | inl same ↦
        (let back : has_address a cs ≡ false =
            ap (λ i. has_address i cs) (sym ((==_iff k a).0 same)) ∙ away in
          absurd (ground (arith, back, here)))
    | inr other ↦ other
  ]

  -- The last cell gets another successor.
  pub redirect :
      (h : Nodes A) (b q : Ptr ℕ) (k : ℕ) (x : A) (cs : Cells A)
      → Seg h b ((k, x) ∷ cs) q
      → Distinct ((k, x) ∷ cs)
      → (a : ℕ) × (n : LinkedNode A) × (last b ((k, x) ∷ cs) ≡ some a)
        × (h a ≡ some n)
        × (has_address a ((k, x) ∷ cs) ≡ true)
        × ((q' : Ptr ℕ) → Seg (write h a (some (node q' n.back n.element))) b ((k, x) ∷ cs) q')
  unfolding write
  redirect h b q k x [] (at_k, s) d =
      (k, node q b x, refl, at_k, ground arith, λ q'. (ground arith, tt))
  redirect h b q k x ((k', x') ∷ cs) (at_k, s) (away, d) =
      let (a, n, end, at_a, here, changed) = redirect h (some k) q k' x' cs s d in
      let other : (k == a) ≡ false = has_address_apart ((k', x') ∷ cs) k a away here in
      (a, n, end, at_a, ground (arith, here), λ q'. (ground (arith, other, at_k), changed q'))

  -- The first cell gets another predecessor.
  pub rejoin :
      (h : Nodes A) (b b' q : Ptr ℕ) (k : ℕ) (x : A) (cs : Cells A)
      → Seg h b ((k, x) ∷ cs) q
      → Distinct ((k, x) ∷ cs)
      → Seg (write h k (some (node (first cs q) b' x))) b' ((k, x) ∷ cs) q
  unfolding write
  rejoin h b b' q k x cs (at_k, s) (away, d) = (ground arith, Seg-write h (some k) q cs k _ away s)

  pub has_address-append :
      (k : ℕ) (xs ys : Cells A)
      → has_address k (xs ++ ys) ≡ (if has_address k xs then true else has_address k ys)
  has_address-append k [] ys = refl
  has_address-append k ((a, x) ∷ xs) ys = ground (arith, has_address-append k xs ys)

  pub Distinct-append :
      (xs ys : Cells A)
      → Distinct (xs ++ ys)
      → Distinct xs × Distinct ys × ((k : ℕ) → has_address k xs ≡ true → has_address k ys ≡ false)
  Distinct-append [] ys d = (tt, d, λ k e. cc)
  Distinct-append ((a, x) ∷ xs) ys (away, d) =
      let (front, rest, apart) = Distinct-append xs ys d in
      (
        (ground (arith, away, has_address-append a xs ys), front),
        rest,
        λ k e. elim (Bool-cases (k == a)) [
          | inl same ↦
              ap (λ i. has_address i ys) ((==_iff k a).0 same)
              ∙ ground (arith, away, has_address-append a xs ys)
          | inr other ↦ apart k (ground (arith, e, other))
        ],
      )

  pub Distinct-without :
      (xs ys : Cells A) (a : ℕ) (x : A)
      → Distinct (xs ++ ((a, x) ∷ ys))
      → Distinct (xs ++ ys) × (has_address a (xs ++ ys) ≡ false)
  Distinct-without [] ys a x (away, d) = (d, away)
  Distinct-without ((k, y) ∷ xs) ys a x (away, d) =
      let (rest, gone) = Distinct-without xs ys a x d in
      (
        (
          ground (arith, away, has_address-append k xs ((a, x) ∷ ys), has_address-append k xs ys),
          rest,
        ),
        ground (arith, away, has_address-append k xs ((a, x) ∷ ys), gone),
      )
