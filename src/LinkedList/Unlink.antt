-- ===== src/LinkedList/Unlink.antt =====
-- linkednode_unlink: the node goes, its neighbours point to each other.
use mathlib.Core.Path.{subst}
use seven_deadly_syns.Prelude.{
  ℕ, ◌==◌, ◌≡◌, ◌≢◌, refl, sym, ap, ◌∙◌, false, none, some, [], ◌∷◌, ◌++◌, Ptr, arith, Bool-cases,
  inl, inr,
}
use seven_deadly_syns.LinkedList.{
  LinkedNode, node, Nodes, write, set_forward, set_back, linkednode_unlink,
}
use seven_deadly_syns.LinkedList.Heap.{
  Cells, has_address, Distinct, first, last, Seg, Seg-append, append-Seg, Seg-write, redirect,
  rejoin, Distinct-append,
}

pub swapped : (a k : ℕ) → (a == k) ≡ false → (k == a) ≡ false
swapped a k other = ground (arith, other)

module _ {A : Type 0} where
  -- `p->forward = q` and `p->back = q` for a node that is there.
  pub set_forward_lem :
      (h : Nodes A) (a : ℕ) (n : LinkedNode A) (q : Ptr ℕ)
      → h a ≡ some n
      → set_forward h a q ≡ some (write h a (some (node q n.back n.element)))
  unfolding set_forward
  set_forward_lem h a n q e = rw (e, set_forward) refl

  pub set_back_lem :
      (h : Nodes A) (a : ℕ) (n : LinkedNode A) (q : Ptr ℕ)
      → h a ≡ some n
      → set_back h a q ≡ some (write h a (some (node n.forward q n.element)))
  unfolding set_back
  set_back_lem h a n q e = rw (e, set_back) refl

  pub write_other :
      (h : Nodes A) (a k : ℕ) (v : Ptr (LinkedNode A)) → (a == k) ≡ false → write h k v a ≡ h a
  unfolding write
  write_other h a k v e = ground (arith, e)

  pub missed :
      (k a : ℕ) (x : A) (cs : Cells A)
      → has_address k ((a, x) ∷ cs) ≡ false
      → ((k == a) ≡ false) × (has_address k cs ≡ false)
  missed k a x cs away = elim (Bool-cases (k == a)) [
    | inl same ↦ absurd (ground (arith, away, same))
    | inr other ↦ (other, ground (arith, away, other))
  ]

  pub own : (k : ℕ) (x : A) (cs : Cells A) → has_address k ((k, x) ∷ cs) ≢ false
  own k x cs e = ground (arith, e)

  abbrev Unlinks : Nodes A → Cells A → ℕ → A → Cells A → Type 0
  Unlinks h pre a x post =
      (h' : Nodes A) × (linkednode_unlink h a ≡ some h')
      × (h' a ≡ some (node (first post none) (last none pre) x))
      × Seg h' none (pre ++ post) none

  unlink_first :
      (h : Nodes A) (a c : ℕ) (x y : A) (post : Cells A)
      → Seg h none ((a, x) ∷ (c, y) ∷ post) none
      → Distinct ((a, x) ∷ (c, y) ∷ post)
      → Unlinks h [] a x ((c, y) ∷ post)
  unfolding linkednode_unlink
  unlink_first h a c x y post (at_a, s) (away, d) =
      let linked = set_back_lem h c (node (first post none) (some a) y) none s.0 in
      (
        write h c (some (node (first post none) none y)),
        rw (at_a, linkednode_unlink) linked,
        write_other h a c _ (missed a c y post away).0 ∙ at_a,
        rejoin h (some a) none none c y post s d,
      )

  unlink_last :
      (h : Nodes A) (k a : ℕ) (z x : A) (pre : Cells A)
      → Seg h none (((k, z) ∷ pre) ++ ((a, x) ∷ [])) none
      → Distinct (((k, z) ∷ pre) ++ ((a, x) ∷ []))
      → Unlinks h ((k, z) ∷ pre) a x []
  unfolding linkednode_unlink
  unlink_last h k a z x pre s d =
      let (front, (at_a, _)) = Seg-append h none none ((k, z) ∷ pre) ((a, x) ∷ []) s in
      let (dpre, _, apart) = Distinct-append ((k, z) ∷ pre) ((a, x) ∷ []) d in
      let (e, n, end, at_e, here, changed) = redirect h none (some a) k z pre front dpre in
      let there : h a ≡ some (node none (some e) x) = at_a ∙ ap (λ b. some (node none b x)) end in
      let (other, _) = missed e a x [] (apart e here) in
      let linked = set_forward_lem h e n none at_e in
      (
        write h e (some (node none n.back n.element)),
        rw (there, linkednode_unlink) linked,
        write_other h a e _ (swapped e a other) ∙ at_a,
        append-Seg _ none none ((k, z) ∷ pre) [] (changed none) tt,
      )

  unlink_between :
      (h : Nodes A) (k a c : ℕ) (z x y : A) (pre post : Cells A)
      → Seg h none (((k, z) ∷ pre) ++ ((a, x) ∷ (c, y) ∷ post)) none
      → Distinct (((k, z) ∷ pre) ++ ((a, x) ∷ (c, y) ∷ post))
      → Unlinks h ((k, z) ∷ pre) a x ((c, y) ∷ post)
  unfolding linkednode_unlink
  unlink_between h k a c z x y pre post s d =
      let (front, (at_a, rest)) =
        Seg-append h none none ((k, z) ∷ pre) ((a, x) ∷ (c, y) ∷ post) s in
      let (dpre, (away, dpost), apart) =
        Distinct-append ((k, z) ∷ pre) ((a, x) ∷ (c, y) ∷ post) d in
      let (e, n, end, at_e, here, changed) = redirect h none (some a) k z pre front dpre in
      let there : h a ≡ some (node (some c) (some e) x) =
        at_a ∙ ap (λ b. some (node (some c) b x)) end in
      let (other, behind) = missed e a x ((c, y) ∷ post) (apart e here) in
      let h1 = write h e (some (node (some c) n.back n.element)) in
      let rest1 : Seg h1 (some a) ((c, y) ∷ post) none =
        Seg-write h (some a) none ((c, y) ∷ post) e _ behind rest in
      let before : has_address c ((k, z) ∷ pre) ≡ false =
        elim (Bool-cases (has_address c ((k, z) ∷ pre))) [
          | inl twice ↦ absurd (own c y post (missed c a x ((c, y) ∷ post) (apart c twice)).1)
          | inr once ↦ once
        ] in
      let v = some (node (first post none) (some e) y) in
      (
        write h1 c v,
        rw (there, linkednode_unlink)
            (rw (set_forward_lem h e n (some c) at_e, linkednode_unlink)
              (set_back_lem h1 c (node (first post none) (some a) y) (some e) rest1.0)),
        write_other h1 a c _ (missed a c y post away).0
            ∙ write_other h a e _ (swapped e a other)
            ∙ at_a,
        append-Seg (write h1 c v) none none ((k, z) ∷ pre) ((c, y) ∷ post)
            (Seg-write h1 none (some c) ((k, z) ∷ pre) c v before (changed (some c)))
            (subst (λ b. Seg (write h1 c v) b ((c, y) ∷ post) none) (sym end)
              (rejoin h1 (some a) (some e) none c y post rest1 dpost)),
      )

  pub unlink_lem :
      (h : Nodes A) (pre : Cells A) (a : ℕ) (x : A) (post : Cells A)
      → Seg h none (pre ++ ((a, x) ∷ post)) none
      → Distinct (pre ++ ((a, x) ∷ post))
      → Unlinks h pre a x post
  unfolding linkednode_unlink
  unlink_lem h [] a x [] (at_a, s) d = (h, rw (at_a, linkednode_unlink) refl, at_a, tt)
  unlink_lem h [] a x ((c, y) ∷ post) s d = unlink_first h a c x y post s d
  unlink_lem h ((k, z) ∷ pre) a x [] s d = unlink_last h k a z x pre s d
  unlink_lem h ((k, z) ∷ pre) a x ((c, y) ∷ post) s d = unlink_between h k a c z x y pre post s d
