-- ===== src/Queue/Tests.antt =====
-- Runs of the queue of utility/Queue/Queue.c, and its theorems at concrete queues.
use seven_deadly_syns.Prelude.{
  ℕ, ◌%◌, ◌≡◌, refl, none, some, List, [], ◌∷◌, Ptr, Bool, true, false, arith, replicate,
  length-replicate, ◌==◌,
}
use seven_deadly_syns.Queue.{Queue, new, push, pop, pop_back, remove, search}
use seven_deadly_syns.Queue.Contents.{contents, IsValid}
use seven_deadly_syns.Queue.Run.{
  Call, pushes, pops, pops_back, searches, removes, run, run_list, run_refines,
}

-- Fresh blocks that happen to hold NULL.
abbrev blocks : ℕ → List (Ptr ℕ)
blocks n = replicate n none

-- 1, 2, 3 round the end of an array that is full.
abbrev wrapped : Queue ℕ
wrapped = record {
  elements = some 2 ∷ some 3 ∷ some 1 ∷ [];
  length = 3;
  space = 3;
  head = 2;
  tail = 2;
}

wrapped-IsValid : IsValid wrapped
wrapped-IsValid = record {
  allocated = refl;
  tail_in = omega arith;
  fits = omega arith;
  head_at = refl;
}

-- 4 and NULL.
abbrev null_last : Queue ℕ
null_last = record {
  elements = some 4 ∷ none ∷ none ∷ [];
  length = 2;
  space = 3;
  head = 2;
  tail = 0;
}

null_last-IsValid : IsValid null_last
null_last-IsValid = record {
  allocated = refl;
  tail_in = omega arith;
  fits = omega arith;
  head_at = refl;
}

abbrev same : Ptr ℕ → Ptr ℕ → Bool
same (some a) (some b) = a == b
same none none = true
same _ _ = false

abbrev is_odd : Ptr ℕ → Bool
is_odd none = false
is_odd (some n) = n % 2 == 1

contents-wrapped : contents wrapped ≡ some 1 ∷ some 2 ∷ some 3 ∷ []
contents-wrapped = refl

push_grows : (push blocks wrapped (some 4)).space ≡ 6
unfolding push
push_grows = refl

abbrev script : List (Call ℕ)
script =
    pushes (some 1)
    ∷ pushes (some 2)
    ∷ pushes (some 3)
    ∷ removes same (some 2)
    ∷ pops_back
    ∷ searches same (some 1)
    ∷ pops
    ∷ pops
    ∷ []

run_refines_example : run blocks script (new blocks) ≡ run_list script []
run_refines_example = run_refines blocks (λ n. length-replicate n none) script

run-script :
    run blocks script (new blocks)
    ≡ none ∷ none ∷ none ∷ some 2 ∷ some 3 ∷ some 1 ∷ some 1 ∷ none ∷ []
unfolding run new push pop pop_back remove search
run-script = refl
