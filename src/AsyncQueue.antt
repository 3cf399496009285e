-- ===== src/AsyncQueue.antt =====
-- utility/AsyncQueue/AsyncQueue.c: a queue behind a mutex, with the calls of several threads interleaved.
-- The code between pthread_mutex_lock and pthread_mutex_unlock is not atomic here: it reads the queue in
-- one step and writes what it makes of it in another.
pub mod Linear
mod Tests
use seven_deadly_syns.Prelude.{
  ℕ, ◌==◌, ◌≡◌, Bool, true, false, if◌then◌else◌, Option, none, some, List, [], ◌∷◌, ◌++◌, Ptr,
}
use seven_deadly_syns.Queue.{Queue, new, push, pop, search, remove}
use seven_deadly_syns.Queue.Run.{Call, pushes, pops, searches, removes, step}

-- The calls asyncqueue_push, asyncqueue_pop, asyncqueue_search and asyncqueue_remove.
pub data AsyncCall (A : Type 0) : Type 0 where
  async_push : Ptr A → AsyncCall A
  async_pop : AsyncCall A
  async_search : (Ptr A → Ptr A → Bool) → Ptr A → AsyncCall A
  async_remove : (Ptr A → Ptr A → Bool) → Ptr A → AsyncCall A

-- The call of the queue that the lock is held for.
abbrev pub body : {A : Type 0} → AsyncCall A → Call A
body (async_push e) = pushes e
body async_pop = pops
body (async_search sf key) = searches sf key
body (async_remove sf key) = removes sf key

-- Where a thread is: in no call, before pthread_mutex_lock, behind it, in the call of the queue with what
-- this will return and leave, and before pthread_mutex_unlock.
pub data Pc (A : Type 0) : Type 0 where
  idle : Pc A
  waiting : AsyncCall A → Pc A
  locked : AsyncCall A → Pc A
  working : AsyncCall A → Ptr A → Queue A → Pc A
  finished : Pc A

-- `_AsyncQueue`, with who has the lock, the threads, and the calls that are done with what they return.
pub record AsyncQueue (A : Type 0) : Type 0 where
  pub q : Queue A
  pub lock : Option ℕ
  pub pc : ℕ → Pc A
  pub calls : List (Call A)
  pub results : List (Ptr A)

abbrev pub moves : {A : Type 0} → (ℕ → Pc A) → ℕ → Pc A → ℕ → Pc A
moves pc i p k = if k == i then p else pc k

module _ {A : Type 0} (malloc : ℕ → List (Ptr A)) where
  -- asyncqueue_new
  unfoldable pub start : AsyncQueue A
  start = record { q = new malloc; lock = none; pc = λ i. idle; calls = []; results = [] }

  -- A step of thread `i`.
  pub data Step (s : AsyncQueue A) : AsyncQueue A → Type 0 where
    call :
        (i : ℕ) (c : AsyncCall A)
        → s.pc i ≡ idle
        → Step s (record s { pc = moves s.pc i (waiting c) })
    mutex_lock :
        (i : ℕ) (c : AsyncCall A)
        → s.pc i ≡ waiting c
        → s.lock ≡ none
        → Step s (record s { lock = some i; pc = moves s.pc i (locked c) })
    reads :
        (i : ℕ) (c : AsyncCall A)
        → s.pc i ≡ locked c
        → Step s (record s {
          pc = moves s.pc i (working c (step malloc (body c) s.q).0 (step malloc (body c) s.q).1);
        })
    writes :
        (i : ℕ) (c : AsyncCall A) (e : Ptr A) (left : Queue A)
        → s.pc i ≡ working c e left
        → Step s (record s {
          q = left;
          pc = moves s.pc i finished;
          calls = s.calls ++ (body c ∷ []);
          results = s.results ++ (e ∷ []);
        })
    mutex_unlock :
        (i : ℕ) → s.pc i ≡ finished → Step s (record s { lock = none; pc = moves s.pc i idle })

  -- The states that any interleaving leads to.
  pub data Reach : AsyncQueue A → Type 0 where
    first : Reach start
    later : {s t : AsyncQueue A} → Reach s → Step s t → Reach t
