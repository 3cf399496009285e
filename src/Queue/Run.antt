-- ===== src/Queue/Run.antt =====
-- A client's calls of a queue in order, with what each returns.
use seven_deadly_syns.Prelude.{ℕ, ◌≡◌, refl, ap, ap₂, ◌∙◌, none, List, [], ◌∷◌, Ptr, Bool, length}
use seven_deadly_syns.Queue.{Queue, new, push, pop, pop_back, search, remove}
use seven_deadly_syns.Queue.Spec
use seven_deadly_syns.Queue.Contents.{contents, IsValid}
use seven_deadly_syns.Queue.Push.{new_lem, push_lem}
use seven_deadly_syns.Queue.Pop.{pop_lem, pop_back_lem}
use seven_deadly_syns.Queue.Remove.{search_lem, remove_lem}

pub data Call (A : Type 0) : Type 0 where
  pushes : Ptr A → Call A
  pops : Call A
  pops_back : Call A
  searches : (Ptr A → Ptr A → Bool) → Ptr A → Call A
  removes : (Ptr A → Ptr A → Bool) → Ptr A → Call A

module _ {A : Type 0} where
  -- The same calls on the list of the elements.
  pub step_list : Call A → List (Ptr A) → Ptr A × List (Ptr A)
  step_list (pushes e) xs = (none, Spec.push xs e)
  step_list pops xs = Spec.pop xs
  step_list pops_back xs = Spec.pop_back xs
  step_list (searches sf key) xs = (Spec.join (Spec.find (sf key) xs), xs)
  step_list (removes sf key) xs = (Spec.join (Spec.find (sf key) xs), Spec.erase (sf key) xs)

  unfoldable pub run_list : List (Call A) → List (Ptr A) → List (Ptr A)
  run_list [] xs = []
  run_list (c ∷ cs) xs = (step_list c xs).0 ∷ run_list cs (step_list c xs).1

module _ {A : Type 0} (malloc : ℕ → List (Ptr A)) where
  unfoldable pub step : Call A → Queue A → Ptr A × Queue A
  unfolding push pop pop_back search remove
  step (pushes e) q = (none, push malloc q e)
  step pops q = pop q
  step pops_back q = pop_back q
  step (searches sf key) q = (search sf key q, q)
  step (removes sf key) q = remove sf key q

  unfoldable pub run : List (Call A) → Queue A → List (Ptr A)
  unfolding step push pop pop_back search remove
  run [] q = []
  run (c ∷ cs) q = (step c q).0 ∷ run cs (step c q).1

module _ {A : Type 0} (malloc : ℕ → List (Ptr A)) (fresh : (n : ℕ) → length (malloc n) ≡ n) where
  pub step_refines :
      (c : Call A) (q : Queue A)
      → IsValid q
      → IsValid (step malloc c q).1
        × (((step malloc c q).0, contents (step malloc c q).1) ≡ step_list c (contents q))
  unfolding step step_list
  step_refines (pushes e) q v =
      let (valid, more) = push_lem malloc fresh q e v in (valid, ap (λ xs. (none, xs)) more)
  step_refines pops q v = pop_lem q v
  step_refines pops_back q v = pop_back_lem q v
  step_refines (searches sf key) q v = (v, ap (λ e. (e, contents q)) (search_lem sf key q))
  step_refines (removes sf key) q v =
      let (valid, found, rest) = remove_lem sf key q v in (valid, ap₂ (λ e xs. (e, xs)) found rest)

  run_refines_from :
      (cs : List (Call A)) (q : Queue A) → IsValid q → run malloc cs q ≡ run_list cs (contents q)
  unfolding run run_list
  run_refines_from [] q v = refl
  run_refines_from (c ∷ cs) q v =
      let (valid, both) = step_refines c q v in
      ap₂ ◌∷◌ (ap (λ p. p.0) both)
        (run_refines_from cs (step malloc c q).1 valid ∙ ap (λ p. run_list cs p.1) both)

  -- From queue_new on, no sequence of queue_push, queue_pop, queue_spop, queue_search and
  -- queue_remove returns anything but what the list of the elements gives, also across growth.
  pub run_refines : (cs : List (Call A)) → run malloc cs (new malloc) ≡ run_list cs []
  run_refines cs =
      let (valid, empty) = new_lem malloc fresh in
      run_refines_from cs (new malloc) valid ∙ ap (run_list cs) empty
