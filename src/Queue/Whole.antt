-- ===== src/Queue/Whole.antt =====
-- queue_filter, queue_map and queue_concat: the loops that build a queue from another.
use mathlib.Core.List.{append-nil, append_assoc}
use mathlib.Core.List
use mathlib.Core.Path.{subst}
use seven_deadly_syns.Prelude.{
  ℕ, zero, suc, ◌+◌, ◌<◌, ◌≡◌, refl, sym, ap, ◌∙◌, if◌then◌else◌, Bool, true, false, Bool-cases,
  inl, inr, none, some, List, [], ◌∷◌, ◌++◌, Ptr, length, tabulate, arith, length-tabulate,
}
use seven_deadly_syns.Queue.{
  Queue, new, push, pop, filter_from, filter, map_from, map, concat_from, concat,
}
use seven_deadly_syns.Queue.Spec
use seven_deadly_syns.Queue.Contents.{cell, contents, IsValid}
use seven_deadly_syns.Queue.Push.{new_lem, push_lem}
use seven_deadly_syns.Queue.Pop.{pop_lem}

module _ {A : Type 0} (malloc : ℕ → List (Ptr A)) (fresh : (n : ℕ) → length (malloc n) ≡ n) where
  filter_from-kept :
      (keep : Ptr A → Bool) (q : Queue A) (n i : ℕ) (out : Queue A)
      → keep (cell q i) ≡ true
      → filter_from malloc keep q (suc n) i out
        ≡ filter_from malloc keep q n (i + 1) (push malloc out (cell q i))
  unfolding filter_from
  filter_from-kept keep q n i out h =
      ap (λ b. filter_from malloc keep q n (i + 1) (if b then push malloc out (cell q i) else out))
        h

  filter_from-dropped :
      (keep : Ptr A → Bool) (q : Queue A) (n i : ℕ) (out : Queue A)
      → keep (cell q i) ≡ false
      → filter_from malloc keep q (suc n) i out ≡ filter_from malloc keep q n (i + 1) out
  unfolding filter_from
  filter_from-dropped keep q n i out h =
      ap (λ b. filter_from malloc keep q n (i + 1) (if b then push malloc out (cell q i) else out))
        h

  abbrev Filtered : (Ptr A → Bool) → List (Ptr A) → Queue A → Queue A → Type 0
  Filtered keep xs out r = IsValid r × (contents r ≡ contents out ++ Spec.filter keep xs)

  filter_from_lem :
      (keep : Ptr A → Bool) (q : Queue A) (n i : ℕ) (out : Queue A)
      → IsValid out
      → Filtered keep (tabulate (cell q) i n) out (filter_from malloc keep q n i out)
  filter_from_lem keep q zero i out v =
      (unfold filter_from in v, unfold filter_from Spec.filter in sym (append-nil (contents out)))
  filter_from_lem keep q (suc n) i out v = elim (Bool-cases (keep (cell q i))) [
    | inl kept ↦
        let (valid, more) = push_lem malloc fresh out (cell q i) v in
        let more' : contents (push malloc out (cell q i)) ≡ contents out ++ (cell q i ∷ []) =
          unfold Spec.push in more in
        let (valid', all) = filter_from_lem keep q n (i + 1) (push malloc out (cell q i)) valid in
        subst (Filtered keep (tabulate (cell q) i (suc n)) out)
          (sym (filter_from-kept keep q n i out kept))
          (
            valid',
            all
                ∙ ap (λ xs. xs ++ Spec.filter keep (tabulate (cell q) (i + 1) n)) more'
                ∙ append_assoc (contents out) (cell q i ∷ [])
                    (Spec.filter keep (tabulate (cell q) (i + 1) n))
                ∙ ap (◌++◌ (contents out)) (sym (Spec.filter-kept keep (cell q i) _ kept)),
          )
    | inr dropped ↦
        let (valid, all) = filter_from_lem keep q n (i + 1) out v in
        subst (Filtered keep (tabulate (cell q) i (suc n)) out)
          (sym (filter_from-dropped keep q n i out dropped))
          (
            valid,
            all ∙ ap (◌++◌ (contents out)) (sym (Spec.filter-dropped keep (cell q i) _ dropped)),
          )
  ]

  -- queue_filter makes a valid queue of the elements that the test keeps, in order.
  filter_lem :
      (keep : Ptr A → Bool) (q : Queue A)
      → IsValid (filter malloc keep q)
        × (contents (filter malloc keep q) ≡ Spec.filter keep (contents q))
  unfolding filter
  filter_lem keep q =
      let (valid, empty) = new_lem malloc fresh in
      let (valid', all) = filter_from_lem keep q q.length 0 (new malloc) valid in
      (valid', all ∙ ap (λ xs. xs ++ Spec.filter keep (contents q)) empty)

  concat_from-null :
      (fuel : ℕ) (q1 q2 : Queue A)
      → (pop q2).0 ≡ none
      → concat_from malloc (suc fuel) q1 q2 ≡ (q1, (pop q2).1)
  unfolding concat_from
  concat_from-null fuel q1 q2 e = rw (e, concat_from)

  concat_from-some :
      (fuel : ℕ) (q1 q2 : Queue A) (a : A)
      → (pop q2).0 ≡ some a
      → concat_from malloc (suc fuel) q1 q2
        ≡ concat_from malloc fuel (push malloc q1 (some a)) (pop q2).1
  unfolding concat_from
  concat_from-some fuel q1 q2 a e = rw (e, concat_from)

  abbrev Moved : List (Ptr A) → List (Ptr A) → Queue A × Queue A → Type 0
  Moved xs ys (r1, r2) =
      IsValid r1
      × IsValid r2
      × (contents r1 ≡ xs ++ Spec.before_null ys)
      × (contents r2 ≡ Spec.after_null ys)

  concat_from_lem :
      (ys : List (Ptr A)) (fuel : ℕ) (q1 q2 : Queue A)
      → IsValid q1
      → IsValid q2
      → contents q2 ≡ ys
      → length ys < fuel
      → Moved (contents q1) ys (concat_from malloc fuel q1 q2)
  unfolding Spec.pop Spec.push Spec.before_null Spec.after_null
  concat_from_lem ys zero q1 q2 v1 v2 e h = elim h [ ]
  concat_from_lem [] (suc fuel) q1 q2 v1 v2 e h =
      let (valid, both) = pop_lem q2 v2 in
      let both' : ((pop q2).0, contents (pop q2).1) ≡ (none, []) = both ∙ ap Spec.pop e in
      subst (Moved (contents q1) []) (sym (concat_from-null fuel q1 q2 (ap (λ p. p.0) both')))
        (v1, valid, sym (append-nil (contents q1)), ap (λ p. p.1) both')
  concat_from_lem (none ∷ ys) (suc fuel) q1 q2 v1 v2 e h =
      let (valid, both) = pop_lem q2 v2 in
      let both' : ((pop q2).0, contents (pop q2).1) ≡ (none, ys) = both ∙ ap Spec.pop e in
      subst (Moved (contents q1) (none ∷ ys))
        (sym (concat_from-null fuel q1 q2 (ap (λ p. p.0) both')))
        (v1, valid, sym (append-nil (contents q1)), ap (λ p. p.1) both')
  concat_from_lem (some a ∷ ys) (suc fuel) q1 q2 v1 v2 e h =
      let shorter : length ys < fuel = omega arith in
      let (valid, both) = pop_lem q2 v2 in
      let both' : ((pop q2).0, contents (pop q2).1) ≡ (some a, ys) = both ∙ ap Spec.pop e in
      let (valid1, more) = push_lem malloc fresh q1 (some a) v1 in
      let (w1, w2, c1, c2) =
        concat_from_lem ys fuel (push malloc q1 (some a)) (pop q2).1 valid1 valid
          (ap (λ p. p.1) both') shorter in
      subst (Moved (contents q1) (some a ∷ ys))
        (sym (concat_from-some fuel q1 q2 a (ap (λ p. p.0) both')))
        (
          w1,
          w2,
          c1
              ∙ ap (λ xs. xs ++ Spec.before_null ys) more
              ∙ append_assoc (contents q1) (some a ∷ []) (Spec.before_null ys),
          c2,
        )

  -- queue_concat moves the elements of the second queue before its first NULL to the end of the
  -- first queue, in order, takes that NULL out too, and leaves the rest; both stay valid.
  concat_lem :
      (q1 q2 : Queue A)
      → IsValid q1
      → IsValid q2
      → let (r1, r2) = concat malloc q1 q2 in
        IsValid r1
        × IsValid r2
        × (contents r1 ≡ contents q1 ++ Spec.before_null (contents q2))
        × (contents r2 ≡ Spec.after_null (contents q2))
  unfolding concat
  concat_lem q1 q2 v1 v2 =
      concat_from_lem (contents q2) (q2.length + 1) q1 q2 v1 v2 refl
        (omega (arith, length-tabulate (cell q2) 0 q2.length))

module _ {A B : Type 0} (malloc : ℕ → List (Ptr B)) (fresh : (n : ℕ) → length (malloc n) ≡ n) where
  map_from_lem :
      (f : Ptr A → Ptr B) (q : Queue A) (n i : ℕ) (out : Queue B)
      → IsValid out
      → IsValid (map_from malloc f q n i out)
        × (contents (map_from malloc f q n i out)
            ≡ contents out ++ List.map f (tabulate (cell q) i n))
  unfolding map_from Spec.push
  map_from_lem f q zero i out v = (v, sym (append-nil (contents out)))
  map_from_lem f q (suc n) i out v =
      let (valid, more) = push_lem malloc fresh out (f (cell q i)) v in
      let (valid', all) = map_from_lem f q n (i + 1) (push malloc out (f (cell q i))) valid in
      (
        valid',
        all
            ∙ ap (λ xs. xs ++ List.map f (tabulate (cell q) (i + 1) n)) more
            ∙ append_assoc (contents out) (f (cell q i) ∷ [])
                (List.map f (tabulate (cell q) (i + 1) n)),
      )

  -- queue_map makes a valid queue of the images of the elements, in order.
  map_lem :
      (f : Ptr A → Ptr B) (q : Queue A)
      → IsValid (map malloc f q) × (contents (map malloc f q) ≡ List.map f (contents q))
  unfolding map
  map_lem f q =
      let (valid, empty) = new_lem malloc fresh in
      let (valid', all) = map_from_lem f q q.length 0 (new malloc) valid in
      (valid', all ∙ ap (λ xs. xs ++ List.map f (contents q)) empty)
