-- ===== src/LinkedList/Refine.antt =====
-- The list that a LinkedList stands for, and its operations.
use mathlib.Core.List.{append-nil}
use seven_deadly_syns.Prelude.{
  ℕ, zero, suc, ◌-◌, ◌≤◌, ◌≡◌, refl, sym, ap, ◌∙◌, Bool, true, Option, none, some, [], ◌∷◌, ◌++◌,
  length, length-append, Ptr, arith, Bool-cases, inl, inr, ◌⊎◌,
}
use seven_deadly_syns.Queue.Spec
use seven_deadly_syns.LinkedList.{node, LinkedList, Nodes, write, linkednode_search, take_out}
use seven_deadly_syns.LinkedList.Heap.{
  Cells, elements, Distinct, first, last, Seg, Seg-write, Distinct-without,
}
use seven_deadly_syns.LinkedList.Unlink.{unlink_lem}

module _ {A : Type 0} where
  -- The nodes of the list, with its root, its tail if it has a node, and its size.
  pub record IsList (h : Nodes A) (ll : LinkedList) (cs : Cells A) : Type 0 where
    pub root : ll.root ≡ first cs none
    pub tail : ll.tail ≡ last (ll.tail) cs
    pub chain : Seg h none cs none
    pub distinct : Distinct cs
    pub size : ll.size ≡ length cs

  pub last-append : (b : Ptr ℕ) (xs ys : Cells A) → last b (xs ++ ys) ≡ last (last b xs) ys
  last-append b [] ys = refl
  last-append b ((a, x) ∷ xs) ys = last-append (some a) xs ys

  last_is : (b : Ptr ℕ) (k : ℕ) (z : A) (cs : Cells A) → (e : ℕ) × (last b ((k, z) ∷ cs) ≡ some e)
  last_is b k z [] = (k, refl)
  last_is b k z ((a, x) ∷ cs) = last_is (some k) a x cs

  pub elements-append : (xs ys : Cells A) → elements (xs ++ ys) ≡ elements xs ++ elements ys
  elements-append [] ys = refl
  elements-append ((a, x) ∷ xs) ys = ap (◌∷◌ x) (elements-append xs ys)

  -- linkednode_search finds the first node whose element passes the test, or there is none.
  abbrev pub Searched : (A → Bool) → Cells A → Option (Ptr ℕ) → Type 0
  Searched f cs result =
      ((result ≡ some none)
        × (Spec.find f (elements cs) ≡ none)
        × (Spec.erase f (elements cs) ≡ elements cs))
      ⊎ ((pre : Cells A) × (k : ℕ) × (y : A) × (post : Cells A) × (cs ≡ pre ++ ((k, y) ∷ post))
          × (result ≡ some (some k))
          × (Spec.find f (elements cs) ≡ some y)
          × (Spec.erase f (elements cs) ≡ elements (pre ++ post)))

  search_hit :
      (fuel : ℕ) (h : Nodes A) (f : A → Bool) (q b : Ptr ℕ) (a : ℕ) (x : A) (cs : Cells A)
      → h a ≡ some (node q b x)
      → f x ≡ true
      → Searched f ((a, x) ∷ cs) (linkednode_search (suc fuel) h f a)
  unfolding linkednode_search Spec.find Spec.erase
  search_hit fuel h f q b a x cs at_a hit = inr (
    [],
    a,
    x,
    cs,
    refl,
    rw (at_a, linkednode_search) (rw (hit, linkednode_search) refl),
    rw hit refl,
    rw hit refl,
  )

  pub linkednode_search_lem :
      (fuel : ℕ) (h : Nodes A) (f : A → Bool) (b : Ptr ℕ) (a : ℕ) (x : A) (cs : Cells A)
      → Seg h b ((a, x) ∷ cs) none
      → length ((a, x) ∷ cs) ≤ fuel
      → Searched f ((a, x) ∷ cs) (linkednode_search fuel h f a)
  unfolding linkednode_search Spec.find Spec.erase
  linkednode_search_lem zero h f b a x cs s enough = absurd (omega (arith, enough))
  linkednode_search_lem (suc fuel) h f b a x [] (at_a, s) enough = elim (Bool-cases (f x)) [
    | inl hit ↦ search_hit fuel h f none b a x [] at_a hit
    | inr miss ↦ inl (
      rw (at_a, linkednode_search) (rw (miss, linkednode_search) refl),
      rw miss refl,
      rw miss refl,
    )
  ]
  linkednode_search_lem (suc fuel) h f b a x ((c, y) ∷ cs) (at_a, s) enough =
      let rest = linkednode_search_lem fuel h f (some a) c y cs s (omega (arith, enough)) in
      elim (Bool-cases (f x)) [
        | inl hit ↦ search_hit fuel h f (some c) b a x ((c, y) ∷ cs) at_a hit
        | inr miss ↦
            (let next : linkednode_search (suc fuel) h f a ≡ linkednode_search fuel h f c =
                rw (at_a, linkednode_search) (rw (miss, linkednode_search) refl) in
              elim rest [
                | inl (runs, found, erased) ↦
                    inl (next ∙ runs, rw miss found, rw miss (ap (◌∷◌ x) erased))
                | inr (pre, k, z, post, split, runs, found, erased) ↦ inr (
                  (a, x) ∷ pre,
                  k,
                  z,
                  post,
                  ap (◌∷◌ (a, x)) split,
                  next ∙ runs,
                  rw miss found,
                  rw miss (ap (◌∷◌ x) erased),
                )
              ])
      ]

  -- The end of linkedlist_remove.
  pub take_out_lem :
      (h : Nodes A) (ll : LinkedList) (pre : Cells A) (a : ℕ) (x : A) (post : Cells A)
      → IsList h ll (pre ++ ((a, x) ∷ post))
      → (ll' : LinkedList) × (h' : Nodes A) × (take_out ll h a ≡ some (some x, ll', h'))
        × IsList h' ll' (pre ++ post)
  unfolding take_out
  take_out_lem h ll pre a x post v =
      let (h', runs, at_a, chain) = unlink_lem h pre a x post v.chain v.distinct in
      let (distinct, gone) = Distinct-without pre post a x v.distinct in
      (
        record {
          root = elim (last none pre) [ none ↦ first post none | some back ↦ ll.root ];
          tail = elim (first post none) [ none ↦ last none pre | some forward ↦ ll.tail ];
          size = ll.size - 1;
        },
        write h' a none,
        rw (runs, take_out) (rw (at_a, take_out) refl),
        record {
          root = new_root pre post v.root;
          tail = new_tail pre post v.tail;
          chain = Seg-write h' none none (pre ++ post) a none gone chain;
          distinct = distinct;
          size = omega (arith, v.size, length-append pre ((a, x) ∷ post), length-append pre post);
        },
      )
    where
      new_root :
          (pre post : Cells A)
          → ll.root ≡ first (pre ++ ((a, x) ∷ post)) none
          → (elim (last none pre) [ none ↦ first post none | some back ↦ ll.root ])
            ≡ first (pre ++ post) none
      new_root [] post e = refl
      new_root ((k, z) ∷ pre) post e = let (b, end) = last_is none k z pre in rw end e

      new_tail :
          (pre post : Cells A)
          → ll.tail ≡ last (ll.tail) (pre ++ ((a, x) ∷ post))
          → (let t : Ptr ℕ = elim (first post none) [
            | none ↦ last none pre
            | some forward ↦ ll.tail
          ] in
              t ≡ last t (pre ++ post))
      new_tail [] [] e = refl
      new_tail ((k, z) ∷ pre) [] e = ap (last (some k)) (sym (append-nil pre))
      new_tail pre ((c, y) ∷ post) e =
          e
          ∙ last-append (ll.tail) pre ((a, x) ∷ (c, y) ∷ post)
          ∙ sym (last-append (ll.tail) pre ((c, y) ∷ post))
