-- ===== src/Client/Jobs.antt =====
-- check_work_queue: which requests are sent, and what is left to be sent.
use mathlib.Core.Path.{subst}
use native.Mathlib.Nat.{mod-lt}
use mathlib.Core.List.{append_assoc, append-nil}
use Prim.Native.Nat.{min}
use seven_deadly_syns.Prelude.{
  ℕ, zero, suc, ◌+◌, ◌-◌, ◌%◌, ◌==◌, ◌≤◌, ◌<◌, ◌≡◌, inl, inr, refl, sym, ap, ◌∙◌, ltb, true,
  if◌then◌else◌, Option, none, some, List, [], ◌∷◌, ◌++◌, length, length-append, get_elem?, get_or,
  take, drop, arith, Ptr, Bool-cases,
}
use seven_deadly_syns.FileSystem.Types.{Name}
use seven_deadly_syns.Queue.Spec
use seven_deadly_syns.ChunkyFile.{ChunkyFile}
use seven_deadly_syns.FileTable.{FileTableEntry, get_job}
use seven_deadly_syns.FileTable.Peers.{lists}
use seven_deadly_syns.Client.{Sent, chunk_request}
use seven_deadly_syns.Client.Chunks.{max_pending_requests, entry_jobs}

-- Each chunk of a queue has a peer.
abbrev pub HasPeers : List (List ℕ) → List ℕ → Type 0
HasPeers chunks [] = Unit {0}
HasPeers chunks (k ∷ ks) =
    ((p : ℕ) × (ps : List ℕ) × (get_elem? chunks k ≡ some (p ∷ ps))) × HasPeers chunks ks

-- The first job id: JOB_ID, and 1 for 0.
abbrev pub first_job : ℕ → ℕ
first_job JOB_ID = if JOB_ID == 0 then 1 else JOB_ID

-- One request for each chunk of a list, to a peer that has it, with job ids from `j` on.
abbrev pub AreRequests : Name → List (List ℕ) → List ℕ → ℕ → List Sent → Type 0
AreRequests path chunks [] j [] = Unit {0}
AreRequests path chunks (k ∷ ks) j (chunk_request peer path' k' j' ∷ sent) =
    (path' ≡ path)
    × (k' ≡ k)
    × (j' ≡ j)
    × (lists peer (get_or chunks k []) ≡ true)
    × AreRequests path chunks ks (j + 1) sent
AreRequests path chunks ks j sent = ⊥

-- The numbers from `j` on.
abbrev pub ids_from : ℕ → ℕ → List ℕ
ids_from j zero = []
ids_from j (suc n) = j ∷ ids_from (j + 1) n

lists-get_or : (xs : List ℕ) (i : ℕ) → i < length xs → lists (get_or xs i 0) xs ≡ true
lists-get_or [] i h = absurd (omega (arith, h))
lists-get_or (x ∷ xs) zero h = ground arith
lists-get_or (x ∷ xs) (suc i) h = ground (arith, lists-get_or xs i (omega (arith, h)))

get_or-some :
    (xss : List (List ℕ)) (i : ℕ) (xs : List ℕ) → get_elem? xss i ≡ some xs → get_or xss i [] ≡ xs
get_or-some [] i xs e = cc
get_or-some (y ∷ ys) zero xs e = ground (arith, e)
get_or-some (y ∷ ys) (suc i) xs e = get_or-some ys i xs e

-- What a run of the inner loop gives, if it sends `n` requests, with job ids from `j` on.
abbrev Sends : FileTableEntry → ℕ → ℕ → Option (List Sent × FileTableEntry × ℕ) → Type 0
Sends fte j n result =
    (sent : List Sent) × (fte' : FileTableEntry) × (result ≡ some (sent, fte', j + n))
    × AreRequests fte.path fte.chunks (take n fte.work_queue) j sent
    × (fte'.work_queue ≡ drop n fte.work_queue)
    × (fte'.outstanding_requests ≡ fte.outstanding_requests ++ ids_from j n)
    × (fte'.path ≡ fte.path)
    × (fte'.chunks ≡ fte.chunks)

module _ (rand : ℕ → ℕ) (path : Name) (file : Ptr ChunkyFile) (chunks : List (List ℕ)) where
  abbrev entry : List ℕ → List ℕ → FileTableEntry
  entry queue waiting = record {
    path = path;
    file = file;
    chunks = chunks;
    work_queue = queue;
    outstanding_requests = waiting;
  }

  no_job :
      (fuel : ℕ) (fte : FileTableEntry) (JOB_ID j : ℕ)
      → get_job (rand JOB_ID) fte max_pending_requests JOB_ID ≡ some (none, fte, j)
      → Sends fte j 0 (entry_jobs rand (suc fuel) fte JOB_ID)
  unfolding entry_jobs
  no_job fuel fte JOB_ID j e = (
    [],
    fte,
    rw (e, entry_jobs) (ap (λ i. some ([], fte, i)) (omega arith)),
    tt,
    refl,
    sym (append-nil fte.outstanding_requests),
    refl,
    refl,
  )

  next_job :
      (fuel JOB_ID j k peer n : ℕ) (ks waiting : List ℕ)
      → lists peer (get_or chunks k []) ≡ true
      → get_job (rand JOB_ID) (entry (k ∷ ks) waiting) max_pending_requests JOB_ID
        ≡ some (
          some (record { chunk = k; peer = peer; job_id = j }),
          entry ks (Spec.push waiting j),
          j + 1,
        )
      → Sends
          (entry ks (Spec.push waiting j))
          (j + 1)
          n
          (entry_jobs rand fuel (entry ks (Spec.push waiting j)) (j + 1))
      → Sends
          (entry (k ∷ ks) waiting)
          j
          (suc n)
          (entry_jobs rand (suc fuel) (entry (k ∷ ks) waiting) JOB_ID)
  unfolding entry_jobs Spec.push
  next_job fuel JOB_ID j k peer n ks waiting has e
        (sent, fte', runs, requests, queue, all_waiting, same_path, same_chunks) =
      let sum : j + 1 + n ≡ j + suc n = omega arith in
      (
        chunk_request peer path k j ∷ sent,
        fte',
        rw (e, entry_jobs)
            (rw (runs, entry_jobs)
              (ap (λ i. some (chunk_request peer path k j ∷ sent, fte', i)) sum)),
        (refl, refl, refl, has, requests),
        queue,
        all_waiting ∙ append_assoc waiting (j ∷ []) (ids_from (j + 1) n),
        same_path,
        same_chunks,
      )

  jobs :
      (fuel JOB_ID j : ℕ) (queue waiting : List ℕ)
      → first_job JOB_ID ≡ j
      → length queue < fuel
      → HasPeers chunks queue
      → Sends
          (entry queue waiting)
          j
          (min (15 - length waiting) (length queue))
          (entry_jobs rand fuel (entry queue waiting) JOB_ID)
  jobs zero JOB_ID j queue waiting ej h hp = absurd (omega (arith, h))
  jobs (suc fuel) JOB_ID j [] waiting ej h hp =
      let none_left : 0 ≡ min (15 - length waiting) 0 = omega arith in
      let idle : get_job (rand JOB_ID) (entry [] waiting) max_pending_requests JOB_ID
          ≡ some (none, entry [] waiting, j) =
        unfold get_job in ground (arith, ej) in
      subst
        (λ n. Sends (entry [] waiting) j n (entry_jobs rand (suc fuel) (entry [] waiting) JOB_ID))
        none_left (no_job fuel (entry [] waiting) JOB_ID j idle)
  jobs (suc fuel) JOB_ID j (k ∷ ks) waiting ej h ((p, ps, at_k), hp) =
      elim (Bool-cases (ltb (length waiting) 15)) [
        | inl room ↦
            (let room_is : length waiting < 15 = ground (arith, room) in
              let peer = get_or (p ∷ ps) (rand JOB_ID % length (p ∷ ps)) 0 in
              let has : lists peer (get_or chunks k []) ≡ true =
                ap (lists peer) (get_or-some chunks k (p ∷ ps) at_k)
                ∙ lists-get_or (p ∷ ps) _ (mod-lt (rand JOB_ID) (omega arith)) in
              let job : get_job (rand JOB_ID) (entry (k ∷ ks) waiting) max_pending_requests JOB_ID
                  ≡ some (
                    some (record { chunk = k; peer = peer; job_id = j }),
                    entry ks (Spec.push waiting j),
                    j + 1,
                  ) =
                unfold get_job in ground (arith, ej, room, at_k) in
              let n = min (15 - length (Spec.push waiting j)) (length ks) in
              let count : suc n ≡ min (15 - length waiting) (length (k ∷ ks)) =
                unfold Spec.push in omega (arith, length-append waiting (j ∷ []), room_is) in
              subst
                (λ m.
                  Sends (entry (k ∷ ks) waiting) j m
                    (entry_jobs rand (suc fuel) (entry (k ∷ ks) waiting) JOB_ID))
                count
                (next_job fuel JOB_ID j k peer n ks waiting has job (
                  jobs fuel (j + 1) (j + 1) ks (Spec.push waiting j) ground arith (omega (arith, h))
                    hp)))
        | inr full ↦
            (let full_is : 15 ≤ length waiting = ground (arith, full) in
              let none_left : 0 ≡ min (15 - length waiting) (length (k ∷ ks)) =
                omega (arith, full_is) in
              let busy : get_job (rand JOB_ID) (entry (k ∷ ks) waiting) max_pending_requests JOB_ID
                  ≡ some (none, entry (k ∷ ks) waiting, j) =
                unfold get_job in ground (arith, ej, full) in
              subst
                (λ n.
                  Sends (entry (k ∷ ks) waiting) j n
                    (entry_jobs rand (suc fuel) (entry (k ∷ ks) waiting) JOB_ID))
                none_left (no_job fuel (entry (k ∷ ks) waiting) JOB_ID j busy))
      ]

-- How many requests the inner loop sends for an entry.
abbrev pub asked : FileTableEntry → ℕ
asked fte = min (15 - length fte.outstanding_requests) (length fte.work_queue)

-- The inner loop of check_work_queue on an entry, each chunk of whose work queue has a peer, with more fuel
-- than the queue has chunks: it meets no failed assert; it sends one request for each of the first chunks
-- of the queue, in its order, to a peer that has the chunk, as many as there is room for among 15
-- outstanding ones, or all; it takes just these out of the queue and adds their job ids, which go on from
-- JOB_ID, to the outstanding ones.
pub entry_jobs_lem :
    (rand : ℕ → ℕ) (fuel : ℕ) (fte : FileTableEntry) (JOB_ID : ℕ)
    → length fte.work_queue < fuel
    → HasPeers fte.chunks fte.work_queue
    → (sent : List Sent) × (fte' : FileTableEntry) × (entry_jobs rand fuel fte JOB_ID
        ≡ some (sent, fte', first_job JOB_ID + asked fte))
      × AreRequests fte.path fte.chunks (take (asked fte) fte.work_queue) (first_job JOB_ID) sent
      × (fte'.work_queue ≡ drop (asked fte) fte.work_queue)
      × (fte'.outstanding_requests
          ≡ fte.outstanding_requests ++ ids_from (first_job JOB_ID) (asked fte))
      × (fte'.path ≡ fte.path)
      × (fte'.chunks ≡ fte.chunks)
entry_jobs_lem rand fuel fte JOB_ID h hp =
    jobs rand fte.path fte.file fte.chunks fuel JOB_ID (first_job JOB_ID) fte.work_queue
      fte.outstanding_requests refl h hp
