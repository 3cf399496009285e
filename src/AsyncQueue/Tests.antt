-- ===== src/AsyncQueue/Tests.antt =====
-- Two threads on one queue: while thread 0 pushes, thread 1 waits for the lock to pop.
use seven_deadly_syns.Prelude.{
  ℕ, ◌≡◌, refl, true, none, some, List, [], ◌∷◌, Ptr, replicate, length-replicate,
}
use seven_deadly_syns.Queue.{Queue, new}
use seven_deadly_syns.Queue.Contents.{contents, IsValid}
use seven_deadly_syns.Queue.Run.{run_list, step, pushes}
use seven_deadly_syns.AsyncQueue.{
  async_push, async_pop, Pc, idle, waiting, finished, AsyncQueue, moves, start, call, mutex_lock,
  reads, writes, Reach, first, later,
}
use seven_deadly_syns.AsyncQueue.Linear.{after, is_inside, reach_lem}

abbrev blocks : ℕ → List (Ptr ℕ)
blocks n = replicate n none

abbrev pushed : Queue ℕ
pushed = (step blocks (pushes (some 5)) (new blocks)).1

abbrev after_push : AsyncQueue ℕ
after_push = record {
  q = pushed;
  lock = some 0;
  pc =
      moves
        (moves
          (moves
            (moves (moves (λ i. idle) 0 (waiting (async_push (some 5)))) 0
              (Pc.locked (async_push (some 5))))
            1 (waiting async_pop))
          0
          (Pc.working (async_push (some 5)) (step blocks (pushes (some 5)) (new blocks)).0 pushed))
        0 finished;
  calls = pushes (some 5) ∷ [];
  results = (step blocks (pushes (some 5)) (new blocks)).0 ∷ [];
}

after_push-Reach : Reach blocks after_push
unfolding start
after_push-Reach =
    later
      (later
        (later
          (later (later first (call 0 (async_push (some 5)) refl))
            (mutex_lock 0 (async_push (some 5)) refl refl))
          (call 1 async_pop refl))
        (reads 0 (async_push (some 5)) refl))
      (writes 0 (async_push (some 5)) _ _ refl)

reach_lem_example :
    ((i j : ℕ) → is_inside (after_push.pc i) ≡ true → is_inside (after_push.pc j) ≡ true → i ≡ j)
    × IsValid after_push.q
    × (contents after_push.q ≡ after after_push.calls [])
    × (after_push.results ≡ run_list after_push.calls [])
reach_lem_example = reach_lem blocks (λ n. length-replicate n none) after_push after_push-Reach
