-- ===== src/AsyncQueue/Linear.antt =====
-- With the mutex, the calls of all threads have the effect of one sequence of calls.
use mathlib.Core.Path.{subst}
use seven_deadly_syns.Prelude.{
  ℕ, ◌≡◌, ◌≢◌, refl, sym, ap, ap₂, ◌∙◌, ◌==◌, Bool, true, false, Option, none, some, List, [], ◌∷◌,
  ◌++◌, Ptr, length, arith, Bool-cases, inl, inr,
}
use seven_deadly_syns.Queue.{Queue}
use seven_deadly_syns.Queue.Contents.{contents, IsValid}
use seven_deadly_syns.Queue.Push.{new_lem}
use seven_deadly_syns.Queue.Run.{Call, step_list, run_list, step, step_refines}
use seven_deadly_syns.AsyncQueue.{
  AsyncCall, body, Pc, idle, waiting, locked, working, finished, AsyncQueue, moves, start, Step,
  call, mutex_lock, reads, writes, mutex_unlock, Reach, first, later,
}

module _ {A : Type 0} where
  -- The elements after these calls.
  abbrev pub after : List (Call A) → List (Ptr A) → List (Ptr A)
  after [] xs = xs
  after (c ∷ cs) xs = after cs (step_list c xs).1

  -- Does the thread hold the lock?
  abbrev pub is_inside : Pc A → Bool
  is_inside idle = false
  is_inside (waiting c) = false
  is_inside (locked c) = true
  is_inside (working c e left) = true
  is_inside finished = true

  run_list-append :
      (cs : List (Call A)) (c : Call A) (xs : List (Ptr A))
      → run_list (cs ++ (c ∷ [])) xs ≡ run_list cs xs ++ ((step_list c (after cs xs)).0 ∷ [])
  unfolding run_list
  run_list-append [] c xs = refl
  run_list-append (d ∷ cs) c xs =
      ap (◌∷◌ (step_list d xs).0) (run_list-append cs c (step_list d xs).1)

  after-append :
      (cs : List (Call A)) (c : Call A) (xs : List (Ptr A))
      → after (cs ++ (c ∷ [])) xs ≡ (step_list c (after cs xs)).1
  after-append [] c xs = refl
  after-append (d ∷ cs) c xs = after-append cs c (step_list d xs).1

module _ {A : Type 0} (malloc : ℕ → List (Ptr A)) (fresh : (n : ℕ) → length (malloc n) ≡ n) where
  -- What a thread in its place says of the queue.
  abbrev IsCurrent : Queue A → Pc A → Type 0
  IsCurrent q idle = Unit {0}
  IsCurrent q (waiting c) = Unit {0}
  IsCurrent q (locked c) = Unit {0}
  IsCurrent q (working c e left) = step malloc (body c) q ≡ (e, left)
  IsCurrent q finished = Unit {0}

  record Inv (s : AsyncQueue A) : Type 0 where
    holder : (i : ℕ) → is_inside (s.pc i) ≡ true → s.lock ≡ some i
    current : (i : ℕ) → IsCurrent s.q (s.pc i)
    valid : IsValid s.q
    elements : contents s.q ≡ after s.calls []
    linear : s.results ≡ run_list s.calls []

  start-Inv : Inv (start malloc)
  unfolding start run_list
  start-Inv =
      let (valid, empty) = new_lem malloc fresh in
      record {
        holder = λ i h. cc;
        current = λ i. tt;
        valid = valid;
        elements = empty;
        linear = refl;
      }

  moves-IsCurrent :
      (q : Queue A) (pc : ℕ → Pc A) (i : ℕ) (p : Pc A)
      → ((k : ℕ) → IsCurrent q (pc k))
      → IsCurrent q p
      → (k : ℕ) → IsCurrent q (moves pc i p k)
  moves-IsCurrent q pc i p all now k = elim (Bool-cases (k == i)) [
    | inl same ↦ rw same now
    | inr other ↦ rw other (all k)
  ]

  moves-holder :
      (pc : ℕ → Pc A) (lock : Option ℕ) (i : ℕ) (p : Pc A)
      → ((k : ℕ) → k ≢ i → is_inside (pc k) ≡ true → lock ≡ some k)
      → (is_inside p ≡ true → lock ≡ some i)
      → (k : ℕ) → is_inside (moves pc i p k) ≡ true
      → lock ≡ some k
  moves-holder pc lock i p others now k h = elim (Bool-cases (k == i)) [
    | inl same ↦
        let at : k ≡ i = ground (arith, same) in now (ground (arith, same, h)) ∙ ap some (sym at)
    | inr other ↦ others k (ground (arith, other)) (ground (arith, other, h))
  ]

  -- A thread in the queue has the lock, so no other is.
  alone :
      (s : AsyncQueue A)
      → Inv s
      → (i : ℕ) → is_inside (s.pc i) ≡ true
      → (k : ℕ) → k ≢ i
      → is_inside (s.pc k) ≡ false
  alone s v i h k ne = elim (Bool-cases (is_inside (s.pc k))) [
    | inl inside ↦ absurd (ground (arith, v.holder k inside, v.holder i h, ne))
    | inr outside ↦ outside
  ]

  -- Only threads that are not in the queue are current on any queue.
  outside-IsCurrent : (q : Queue A) (p : Pc A) → is_inside p ≡ false → IsCurrent q p
  outside-IsCurrent q idle h = tt
  outside-IsCurrent q (waiting c) h = tt
  outside-IsCurrent q (locked c) h = cc
  outside-IsCurrent q (working c e left) h = cc
  outside-IsCurrent q finished h = cc

  write-Inv :
      (s : AsyncQueue A) (i : ℕ) (c : AsyncCall A) (e : Ptr A) (left : Queue A)
      → Inv s
      → s.pc i ≡ working c e left
      → Inv (record s {
        q = left;
        pc = moves s.pc i finished;
        calls = s.calls ++ (body c ∷ []);
        results = s.results ++ (e ∷ []);
      })
  write-Inv s i c e left v at =
      let (valid, both) = step_refines malloc fresh (body c) s.q v.valid in
      let now : step malloc (body c) s.q ≡ (e, left) = subst (IsCurrent s.q) at (v.current i) in
      record {
        holder =
            moves-holder s.pc s.lock i finished (λ k ne. v.holder k)
              (λ h. v.holder i (ap is_inside at));
        current = λ k. elim (Bool-cases (k == i)) [
          | inl same ↦ rw same tt
          | inr other ↦ rw other (
              outside-IsCurrent left (s.pc k)
                (alone s v i (ap is_inside at) k (ground (arith, other))))
        ];
        valid = subst IsValid (ap (λ r. r.1) now) valid;
        elements =
            ap (λ r. contents r.1) (sym now)
            ∙ ap (λ r. r.1) both
            ∙ ap (λ xs. (step_list (body c) xs).1) v.elements
            ∙ sym (after-append s.calls (body c) []);
        linear =
            ap₂ (λ xs y. xs ++ (y ∷ [])) v.linear
              (ap (λ r. r.0) (sym now)
                ∙ ap (λ r. r.0) both
                ∙ ap (λ xs. (step_list (body c) xs).0) v.elements)
            ∙ sym (run_list-append s.calls (body c) []);
      }

  after-Inv : (s t : AsyncQueue A) → Inv s → Step malloc s t → Inv t
  after-Inv s t v (call i c at) = record {
    holder = moves-holder s.pc s.lock i (waiting c) (λ k ne. v.holder k) (λ h. cc);
    current = moves-IsCurrent s.q s.pc i (waiting c) v.current tt;
    valid = v.valid;
    elements = v.elements;
    linear = v.linear;
  }
  after-Inv s t v (mutex_lock i c at free) = record {
    holder =
        moves-holder s.pc (some i) i (locked c)
          (λ k ne h. absurd (ground (arith, v.holder k h, free))) (λ h. refl);
    current = moves-IsCurrent s.q s.pc i (locked c) v.current tt;
    valid = v.valid;
    elements = v.elements;
    linear = v.linear;
  }
  after-Inv s t v (reads i c at) = record {
    holder = moves-holder s.pc s.lock i _ (λ k ne. v.holder k) (λ h. v.holder i (ap is_inside at));
    current =
        moves-IsCurrent s.q s.pc i
          (working c (step malloc (body c) s.q).0 (step malloc (body c) s.q).1) v.current refl;
    valid = v.valid;
    elements = v.elements;
    linear = v.linear;
  }
  after-Inv s t v (writes i c e left at) = write-Inv s i c e left v at
  after-Inv s t v (mutex_unlock i at) = record {
    holder =
        moves-holder s.pc none i idle
          (λ k ne h. absurd (ground (arith, h, alone s v i (ap is_inside at) k ne))) (λ h. cc);
    current = moves-IsCurrent s.q s.pc i idle v.current tt;
    valid = v.valid;
    elements = v.elements;
    linear = v.linear;
  }

  -- In every state that any interleaving of the threads' calls leads to, at most one thread is between
  -- pthread_mutex_lock and pthread_mutex_unlock, the queue is valid, it holds the elements that the calls
  -- done so far leave when they are made one after the other on a list, and they have returned what those
  -- return.
  pub reach_lem :
      (s : AsyncQueue A)
      → Reach malloc s
      → ((i j : ℕ) → is_inside (s.pc i) ≡ true → is_inside (s.pc j) ≡ true → i ≡ j)
        × IsValid s.q
        × (contents s.q ≡ after s.calls [])
        × (s.results ≡ run_list s.calls [])
  reach_lem s r =
      let v = reach-Inv s r in
      (λ i j hi hj. ground (arith, v.holder i hi, v.holder j hj), v.valid, v.elements, v.linear)
    where
      reach-Inv : (s : AsyncQueue A) → Reach malloc s → Inv s
      reach-Inv s first = start-Inv
      reach-Inv s (later {s = s0} r st) = after-Inv s0 s (reach-Inv s0 r) st
