-- ===== src/LinkedList/Run.antt =====
-- A client's calls of a linked list in order, against the list of its elements.
use mathlib.Core.Path.{subst}
use seven_deadly_syns.Prelude.{
  ℕ, ◌+◌, ◌==◌, ◌≡◌, refl, sym, ap, ◌∙◌, Bool, false, Option, none, some, List, [], ◌∷◌, ◌++◌,
  length-append, Ptr, arith, Bool-cases, ==_iff, inl, inr,
}
use mathlib.Core.Option.{none-ne-some}
use seven_deadly_syns.Queue.Spec
use seven_deadly_syns.LinkedList.{
  LinkedNode, node, LinkedList, Nodes, write, set_forward, linkednode_search, linkedlist_new,
  linkedlist_append, take_out, linkedlist_remove, linkedlist_get,
}
use seven_deadly_syns.LinkedList.Heap.{
  Cells, elements, has_address, Distinct, last, Seg, Seg-append, append-Seg, Seg-write, redirect,
  has_address-append, has_address_apart,
}
use seven_deadly_syns.LinkedList.Unlink.{set_forward_lem, write_other}
use seven_deadly_syns.LinkedList.Refine.{
  IsList, last-append, elements-append, linkednode_search_lem, take_out_lem,
}

module _ {A : Type 0} where
  -- An address that holds nothing is none of the list's.
  pub fresh_address :
      (h : Nodes A) (b q : Ptr ℕ) (cs : Cells A) (new : ℕ)
      → h new ≡ none
      → Seg h b cs q
      → has_address new cs ≡ false
  fresh_address h b q [] new free s = refl
  fresh_address h b q ((a, x) ∷ cs) new free (at_a, s) = elim (Bool-cases (new == a)) [
    | inl same ↦
        (let there : h a ≡ none = ap h (sym ((==_iff new a).0 same)) ∙ free in
          absurd (none-ne-some _ (sym there ∙ at_a)))
    | inr other ↦ ground (arith, other, fresh_address h (some a) q cs new free s)
  ]

  Distinct-snoc :
      (cs : Cells A) (new : ℕ) (x : A)
      → Distinct cs
      → has_address new cs ≡ false
      → Distinct (cs ++ ((new, x) ∷ []))
  Distinct-snoc [] new x d away = (refl, tt)
  Distinct-snoc ((a, y) ∷ cs) new x (h, d) away =
      (apart, Distinct-snoc cs new x d (ground (arith, away)))
    where
      other : (a == new) ≡ false
      other = elim (Bool-cases (a == new)) [
        | inl same ↦ absurd (ground (arith, away, same))
        | inr no_ ↦ no_
      ]

      apart : has_address a (cs ++ ((new, x) ∷ [])) ≡ false
      apart = has_address-append a cs ((new, x) ∷ []) ∙ ground (arith, h, other)

  pub write_self : (h : Nodes A) (a : ℕ) (v : Ptr (LinkedNode A)) → write h a v a ≡ v
  unfolding write
  write_self h a v = ground arith

  append_lem :
      (h : Nodes A) (ll : LinkedList) (cs : Cells A) (new : ℕ) (x : A)
      → IsList h ll cs
      → h new ≡ none
      → (ll' : LinkedList) × (h' : Nodes A) × (linkedlist_append new ll h x ≡ some (ll', h'))
        × IsList h' ll' (cs ++ ((new, x) ∷ []))
  unfolding linkedlist_append
  append_lem h ll [] new x v free = (
    record { root = some new; tail = some new; size = ll.size + 1 },
    write h new (some (node none none x)),
    rw (v.root, linkedlist_append) refl,
    record {
      root = refl;
      tail = refl;
      chain = (write_self h new _, tt);
      distinct = (refl, tt);
      size = omega (arith, v.size);
    },
  )
  append_lem h ll ((k, z) ∷ cs) new x v free =
      let all : Cells A = (k, z) ∷ cs in
      let away = fresh_address h none none all new free v.chain in
      let added : Ptr (LinkedNode A) = some (node none (last none all) x) in
      let h1 = write h new added in
      let (e, n, end, at_e, here, changed) =
        redirect h1 none none k z cs (Seg-write h none none all new added away v.chain)
          v.distinct in
      let h2 = write h1 e (some (node (some new) n.back n.element)) in
      let other : (new == e) ≡ false = has_address_apart all new e away here in
      let linked : set_forward (write h new (some (node none (some e) x))) e (some new) ≡ some h2 =
        ap (λ b. set_forward (write h new (some (node none b x))) e (some new)) (sym end)
        ∙ set_forward_lem h1 e n (some new) at_e in
      (
        record ll { tail = some new; size = ll.size + 1 },
        h2,
        rw (v.root, linkedlist_append)
            (rw (v.tail ∙ end, linkedlist_append)
              (rw (linked, linkedlist_append)
                (ap (λ r. some (record { root = r; tail = some new; size = ll.size + 1 }, h2))
                  v.root))),
        record {
          root = v.root;
          tail = sym (last-append (some new) all ((new, x) ∷ []));
          chain =
              append-Seg h2 none none all ((new, x) ∷ []) (changed (some new))
                (write_other h1 new e _ other ∙ write_self h new added, tt);
          distinct = Distinct-snoc all new x v.distinct away;
          size = omega (arith, v.size, length-append all ((new, x) ∷ []));
        },
      )

  remove-empty :
      (fuel : ℕ) (ll : LinkedList) (h : Nodes A) (f : A → Bool)
      → ll.root ≡ none
      → linkedlist_remove fuel ll h f ≡ some (none, ll, h)
  unfolding linkedlist_remove
  remove-empty fuel ll h f e =
      rw (e, linkedlist_remove) (ap (λ r. some (none, record ll { root = r }, h)) e)

  remove-missing :
      (fuel k : ℕ) (ll : LinkedList) (h : Nodes A) (f : A → Bool)
      → ll.root ≡ some k
      → linkednode_search fuel h f k ≡ some none
      → linkedlist_remove fuel ll h f ≡ some (none, ll, h)
  unfolding linkedlist_remove
  remove-missing fuel k ll h f e runs =
      rw (e, linkedlist_remove)
        (rw (runs, linkedlist_remove) (ap (λ r. some (none, record ll { root = r }, h)) e))

  remove-found :
      (fuel k a : ℕ) (ll : LinkedList) (h : Nodes A) (f : A → Bool)
      → ll.root ≡ some k
      → linkednode_search fuel h f k ≡ some (some a)
      → linkedlist_remove fuel ll h f ≡ take_out ll h a
  unfolding linkedlist_remove
  remove-found fuel k a ll h f e runs =
      rw (e, linkedlist_remove)
        (rw (runs, linkedlist_remove) (ap (λ r. take_out (record ll { root = r }) h a) e))

  remove_lem :
      (h : Nodes A) (ll : LinkedList) (cs : Cells A) (f : A → Bool)
      → IsList h ll cs
      → (ll' : LinkedList) × (h' : Nodes A) × (cs' : Cells A) × (linkedlist_remove ll.size ll h f
          ≡ some (Spec.find f (elements cs), ll', h'))
        × IsList h' ll' cs'
        × (elements cs' ≡ Spec.erase f (elements cs))
  unfolding Spec.find Spec.erase
  remove_lem h ll [] f v = (ll, h, [], remove-empty ll.size ll h f v.root, v, refl)
  remove_lem h ll ((k, z) ∷ cs) f v =
      elim (linkednode_search_lem ll.size h f none k z cs v.chain (omega (arith, v.size))) [
        | inl (runs, found, erased) ↦ (
          ll,
          h,
          (k, z) ∷ cs,
          remove-missing ll.size k ll h f v.root runs ∙ ap (λ x. some (x, ll, h)) (sym found),
          v,
          sym erased,
        )
        | inr (pre, a, y, post, split, runs, found, erased) ↦
            (let (ll', h', out, valid) =
                take_out_lem h ll pre a y post (subst (IsList h ll) split v) in
              (
                ll',
                h',
                pre ++ post,
                remove-found ll.size k a ll h f v.root runs
                    ∙ out
                    ∙ ap (λ x. some (x, ll', h')) (sym found),
                valid,
                sym erased,
              ))
      ]

  get_lem :
      (h : Nodes A) (ll : LinkedList) (cs : Cells A) (f : A → Bool)
      → IsList h ll cs
      → linkedlist_get ll.size ll h f ≡ some (Spec.find f (elements cs))
  unfolding linkedlist_get Spec.find
  get_lem h ll [] f v = rw (v.root, linkedlist_get) refl
  get_lem h ll ((k, z) ∷ cs) f v =
      elim (linkednode_search_lem ll.size h f none k z cs v.chain (omega (arith, v.size))) [
        | inl (runs, found, erased) ↦
            rw (v.root, linkedlist_get) (rw (runs, linkedlist_get) (ap some (sym found)))
        | inr (pre, a, y, post, split, runs, found, erased) ↦
            (let at_a =
                (Seg-append h none none pre ((a, y) ∷ post)
                  (subst (IsList h ll) split v).chain).1.0 in
              rw (v.root, linkedlist_get)
                (rw (runs, linkedlist_get) (rw (at_a, linkedlist_get) (ap some (sym found)))))
      ]

-- The calls of a client; an append comes with the address that malloc gives.
pub data Call (A : Type 0) : Type 0 where
  appends : ℕ → A → Call A
  removes : (A → Bool) → Call A
  gets : (A → Bool) → Call A

module _ {A : Type 0} where
  -- The same calls on the list of the elements.
  abbrev pub step_list : Call A → List A → Ptr A × List A
  step_list (appends new x) xs = (none, xs ++ (x ∷ []))
  step_list (removes f) xs = (Spec.find f xs, Spec.erase f xs)
  step_list (gets f) xs = (Spec.find f xs, xs)

  abbrev pub run_list : List (Call A) → List A → List (Ptr A)
  run_list [] xs = []
  run_list (c ∷ cs) xs = let (x, xs') = step_list c xs in x ∷ run_list cs xs'

  unfoldable pub step : Call A → LinkedList → Nodes A → Option (Ptr A × LinkedList × Nodes A)
  unfolding linkedlist_append linkedlist_remove linkedlist_get
  step (appends new x) ll h = elim (linkedlist_append new ll h x) [
    | none ↦ none
    | some (ll', h') ↦ some (none, ll', h')
  ]
  step (removes f) ll h = linkedlist_remove ll.size ll h f
  step (gets f) ll h = elim (linkedlist_get ll.size ll h f) [
    | none ↦ none
    | some x ↦ some (x, ll, h)
  ]

  unfoldable pub run : List (Call A) → LinkedList → Nodes A → Option (List (Ptr A))
  unfolding step
  run [] ll h = some []
  run (c ∷ cs) ll h = elim (step c ll h) [
    | none ↦ none
    | some (x, ll', h') ↦ elim (run cs ll' h') [ none ↦ none | some xs ↦ some (x ∷ xs) ]
  ]

  -- Each address that malloc gives holds nothing at that time.
  abbrev pub IsFree : Call A → Nodes A → Type 0
  IsFree (appends new x) h = h new ≡ none
  IsFree (removes f) h = Unit {0}
  IsFree (gets f) h = Unit {0}

  abbrev pub AreFree : List (Call A) → LinkedList → Nodes A → Type 0
  AreFree [] ll h = Unit {0}
  AreFree (c ∷ cs) ll h =
      IsFree c h × (elim (step c ll h) [ none ↦ Unit {0} | some (x, ll', h') ↦ AreFree cs ll' h' ])

  step_lem :
      (c : Call A) (h : Nodes A) (ll : LinkedList) (cs : Cells A)
      → IsFree c h
      → IsList h ll cs
      → (ll' : LinkedList) × (h' : Nodes A) × (cs' : Cells A) × (step c ll h
          ≡ some ((step_list c (elements cs)).0, ll', h'))
        × IsList h' ll' cs'
        × (elements cs' ≡ (step_list c (elements cs)).1)
  unfolding step
  step_lem (appends new x) h ll cs free v =
      let (ll', h', runs, valid) = append_lem h ll cs new x v free in
      (
        ll',
        h',
        cs ++ ((new, x) ∷ []),
        rw (runs, step) refl,
        valid,
        elements-append cs ((new, x) ∷ []),
      )
  step_lem (removes f) h ll cs free v = remove_lem h ll cs f v
  step_lem (gets f) h ll cs free v = (ll, h, cs, rw (get_lem h ll cs f v, step) refl, v, refl)

  run_lem_from :
      (calls : List (Call A)) (h : Nodes A) (ll : LinkedList) (cs : Cells A) (xs : List A)
      → AreFree calls ll h
      → IsList h ll cs
      → elements cs ≡ xs
      → run calls ll h ≡ some (run_list calls xs)
  unfolding run
  run_lem_from [] h ll cs xs free v e = refl
  run_lem_from (c ∷ calls) h ll cs xs (free, later) v e =
      let (ll', h', cs', runs, valid, left) = step_lem c h ll cs free v in
      let at_xs : step c ll h ≡ some ((step_list c xs).0, ll', h') =
        runs ∙ ap (λ ys. some ((step_list c ys).0, ll', h')) e in
      let free' : AreFree calls ll' h' =
        subst (λ r. elim r [ none ↦ Unit {0} | some (x, l, g) ↦ AreFree calls l g ]) at_xs later in
      let rest =
        run_lem_from calls h' ll' cs' (step_list c xs).1 free' valid
          (left ∙ ap (λ ys. (step_list c ys).1) e) in
      rw (at_xs, run) (rw (rest, run) refl)

  -- Any sequence of calls of linkedlist_append, linkedlist_remove and linkedlist_get on a new list, whatever
  -- its tail holds and whatever the heap: no call reads or writes through NULL or at an address that holds no
  -- node, none of the searches runs out of fuel, and each call returns what the list of the elements gives,
  -- which appends at the end, takes out the first element that passes the test, and finds it.
  -- Each address that malloc gives holds nothing at that time; it may be one that was freed.
  pub linked_list_lem :
      (calls : List (Call A)) (tail : Ptr ℕ) (h : Nodes A)
      → AreFree calls (linkedlist_new tail) h
      → run calls (linkedlist_new tail) h ≡ some (run_list calls [])
  linked_list_lem calls tail h free =
      run_lem_from calls h (linkedlist_new tail) [] [] free
        (record { root = refl; tail = refl; chain = tt; distinct = tt; size = refl }) refl
