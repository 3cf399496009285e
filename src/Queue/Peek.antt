-- ===== src/Queue/Peek.antt =====
-- queue_speek, which pops the last element and pushes it back.
use seven_deadly_syns.Prelude.{ℕ, ◌≡◌, refl, ap, ◌∙◌, none, some, List, [], ◌∷◌, ◌++◌, Ptr, length}
use seven_deadly_syns.Queue.{Queue, pop_back, peek_back}
use seven_deadly_syns.Queue.Spec
use seven_deadly_syns.Queue.Contents.{contents, IsValid}
use seven_deadly_syns.Queue.Push.{push_lem}
use seven_deadly_syns.Queue.Pop.{pop_back_lem}

module _ {A : Type 0} (malloc : ℕ → List (Ptr A)) (fresh : (n : ℕ) → length (malloc n) ≡ n) where
  peek_back-last :
      (q : Queue A) (xs : List (Ptr A)) (e : Ptr A)
      → IsValid q
      → (pop_back q).0 ≡ e
      → IsValid (pop_back q).1
      → contents (pop_back q).1 ≡ xs
      → IsValid (peek_back malloc q).1
        × ((peek_back malloc q).0 ≡ e)
        × (contents (peek_back malloc q).1 ≡ Spec.peeked xs e)
  unfolding peek_back Spec.peeked
  peek_back-last q xs none v last valid rest = rw (last, peek_back) (valid, refl, rest)
  peek_back-last q xs (some a) v last valid rest =
      let (valid', more) = push_lem malloc fresh (pop_back q).1 (some a) valid in
      rw (last, peek_back)
        (valid', refl, more ∙ ap (λ ys. Spec.push ys (some a)) rest ∙ (unfold Spec.push in refl))

  -- queue_speek on a valid queue returns the last element and keeps the queue valid; it leaves
  -- the elements as they were if the last one is not NULL, and drops it if it is.
  peek_back_lem :
      (q : Queue A) (xs : List (Ptr A)) (e : Ptr A)
      → IsValid q
      → contents q ≡ xs ++ (e ∷ [])
      → IsValid (peek_back malloc q).1
        × ((peek_back malloc q).0 ≡ e)
        × (contents (peek_back malloc q).1 ≡ Spec.peeked xs e)
  peek_back_lem q xs e v last =
      let (valid, both) = pop_back_lem q v in
      let both' : ((pop_back q).0, contents (pop_back q).1) ≡ (e, xs) =
        both ∙ ap Spec.pop_back last ∙ Spec.pop_back-snoc xs e in
      peek_back-last q xs e v (ap (λ p. p.0) both') valid (ap (λ p. p.1) both')
