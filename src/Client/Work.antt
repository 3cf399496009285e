-- ===== src/Client/Work.antt =====
-- check_work_queue on the whole file table.
use seven_deadly_syns.Prelude.{
  ℕ, zero, suc, ◌+◌, ◌<◌, ◌≡◌, refl, sym, ap, ap₂, ◌∙◌, Option, some, List, [], ◌∷◌, ◌++◌, length,
  length-append, length-take, take, drop, arith,
}
use seven_deadly_syns.FileSystem.Types.{Name}
use seven_deadly_syns.FileTable.{FileTableEntry}
use seven_deadly_syns.Client.{
  Client, Sent, chunk_got, updated_files, chunk_request, chunk, chunk_rejection,
}
use seven_deadly_syns.Client.Chunks.{entry_jobs, bucket_jobs, table_jobs, check_work_queue}
use seven_deadly_syns.Client.Jobs.{
  HasPeers, first_job, AreRequests, ids_from, asked, entry_jobs_lem,
}

-- The job ids of the requests.
abbrev pub job_ids : List Sent → List ℕ
job_ids [] = []
job_ids (chunk_request peer path k j ∷ sent) = j ∷ job_ids sent
job_ids (s ∷ sent) = job_ids sent

-- Every queued chunk has a peer, and the fuel is enough.
abbrev pub Ready : ℕ → FileTableEntry → Type 0
Ready fuel e = (length e.work_queue < fuel) × HasPeers e.chunks e.work_queue

-- What becomes of an entry.
pub record Served (e e' : FileTableEntry) : Type 0 where
  pub path : e'.path ≡ e.path
  pub chunks : e'.chunks ≡ e.chunks
  pub queue : e'.work_queue ≡ drop (asked e) e.work_queue
  pub waiting : length e'.outstanding_requests ≡ length e.outstanding_requests + asked e

abbrev pub All : {A : Type 0} → (A → Type 0) → List A → Type 0
All P [] = Unit {0}
All P (x ∷ xs) = P x × All P xs

abbrev pub All₂ : {A : Type 0} → (A → A → Type 0) → List A → List A → Type 0
All₂ R [] [] = Unit {0}
All₂ R [] (y ∷ ys) = ⊥
All₂ R (x ∷ xs) [] = ⊥
All₂ R (x ∷ xs) (y ∷ ys) = R x y × All₂ R xs ys

-- The ids of the requests go on from JOB_ID, to the next one.
record Numbered (JOB_ID JOB_ID' : ℕ) (sent : List Sent) : Type 0 where
  next : first_job JOB_ID' ≡ first_job JOB_ID + length sent
  ids : job_ids sent ≡ ids_from (first_job JOB_ID) (length sent)

job_ids-append : (xs ys : List Sent) → job_ids (xs ++ ys) ≡ job_ids xs ++ job_ids ys
job_ids-append [] ys = refl
job_ids-append (chunk_got p k ∷ xs) ys = job_ids-append xs ys
job_ids-append (updated_files a d ∷ xs) ys = job_ids-append xs ys
job_ids-append (chunk_request peer path k j ∷ xs) ys = ap (◌∷◌ j) (job_ids-append xs ys)
job_ids-append (chunk p q k bs j ∷ xs) ys = job_ids-append xs ys
job_ids-append (chunk_rejection p q k j ∷ xs) ys = job_ids-append xs ys

ids_from-add : (j m n : ℕ) → ids_from j m ++ ids_from (j + m) n ≡ ids_from j (m + n)
ids_from-add j zero n =
    let (a, b) : (j + 0 ≡ j) × (0 + n ≡ n) = (omega arith, omega arith) in ap₂ ids_from a (sym b)
ids_from-add j (suc m) n =
    let (a, b) : (j + suc m ≡ j + 1 + m) × (suc (m + n) ≡ suc m + n) = (omega arith, omega arith) in
    ap (λ i. j ∷ (ids_from (j + 1) m ++ ids_from i n)) a
    ∙ ap (◌∷◌ j) (ids_from-add (j + 1) m n)
    ∙ ap (ids_from j) b

append-Numbered :
    (i j k : ℕ) (sent more : List Sent)
    → Numbered i j sent
    → Numbered j k more
    → Numbered i k (sent ++ more)
append-Numbered i j k sent more a b = record {
  next = omega (arith, a.next, b.next, length-append sent more);
  ids =
      job_ids-append sent more
      ∙ ap₂ ◌++◌ a.ids (b.ids ∙ ap (λ n. ids_from n (length more)) a.next)
      ∙ ids_from-add (first_job i) (length sent) (length more)
      ∙ ap (ids_from (first_job i)) (sym (length-append sent more));
}

requests-ids :
    (path : Name) (chunks : List (List ℕ)) (ks : List ℕ) (j : ℕ) (sent : List Sent)
    → AreRequests path chunks ks j sent
    → (length sent ≡ length ks) × (job_ids sent ≡ ids_from j (length ks))
requests-ids path chunks [] j [] h = (refl, refl)
requests-ids path chunks [] j (chunk_got _ _ ∷ sent) h = elim h [ ]
requests-ids path chunks [] j (updated_files _ _ ∷ sent) h = elim h [ ]
requests-ids path chunks [] j (chunk_request _ _ _ _ ∷ sent) h = elim h [ ]
requests-ids path chunks [] j (chunk _ _ _ _ _ ∷ sent) h = elim h [ ]
requests-ids path chunks [] j (chunk_rejection _ _ _ _ ∷ sent) h = elim h [ ]
requests-ids path chunks (k ∷ ks) j [] h = elim h [ ]
requests-ids path chunks (k ∷ ks) j (chunk_got _ _ ∷ sent) h = elim h [ ]
requests-ids path chunks (k ∷ ks) j (updated_files _ _ ∷ sent) h = elim h [ ]
requests-ids path chunks (k ∷ ks) j (chunk_request peer p k' j' ∷ sent) (_, _, same, _, h) =
    let (count, ids) = requests-ids path chunks ks (j + 1) sent h in
    (ap suc count, ap₂ ◌∷◌ same ids)
requests-ids path chunks (k ∷ ks) j (chunk _ _ _ _ _ ∷ sent) h = elim h [ ]
requests-ids path chunks (k ∷ ks) j (chunk_rejection _ _ _ _ ∷ sent) h = elim h [ ]

-- A part of the loops gives a result in the relation, and its requests are numbered.
abbrev Works : {A : Type 0} → (A → A → Type 0) → ℕ → A → Option (List Sent × A × ℕ) → Type 0
Works {A = A} R JOB_ID a result =
    (sent : List Sent) × (a' : A) × (JOB_ID' : ℕ) × (result ≡ some (sent, a', JOB_ID'))
    × Numbered JOB_ID JOB_ID' sent
    × R a a'

length-ids_from : (j n : ℕ) → length (ids_from j n) ≡ n
length-ids_from j zero = refl
length-ids_from j (suc n) = ap suc (length-ids_from (j + 1) n)

first_job_next : (j n : ℕ) → first_job (first_job j + n) ≡ first_job j + n
first_job_next j n = ground arith

module _ (rand : ℕ → ℕ) (fuel : ℕ) where
  entry-Works :
      (e : FileTableEntry) (JOB_ID : ℕ)
      → Ready fuel e
      → Works Served JOB_ID e (entry_jobs rand fuel e JOB_ID)
  entry-Works e JOB_ID (h, hp) =
      let (sent, e', runs, requests, queue, waiting, path, chunks) =
        entry_jobs_lem rand fuel e JOB_ID h hp in
      let (count, ids) =
        requests-ids e.path e.chunks (take (asked e) e.work_queue) (first_job JOB_ID) sent
          requests in
      let all : length (take (asked e) e.work_queue) ≡ asked e =
        omega (arith, length-take (asked e) e.work_queue) in
      let new : length sent ≡ asked e = count ∙ all in
      (
        sent,
        e',
        first_job JOB_ID + asked e,
        runs,
        record {
          next = first_job_next JOB_ID (asked e) ∙ ap (λ n. first_job JOB_ID + n) (sym new);
          ids = ids ∙ ap (ids_from (first_job JOB_ID)) (sym count);
        },
        record {
          path = path;
          chunks = chunks;
          queue = queue;
          waiting =
              ap length waiting
              ∙ length-append e.outstanding_requests _
              ∙ ap (λ n. length e.outstanding_requests + n)
                  (length-ids_from (first_job JOB_ID) (asked e));
        },
      )

  bucket-Works :
      (es : List FileTableEntry) (JOB_ID : ℕ)
      → All (Ready fuel) es
      → Works (All₂ Served) JOB_ID es (bucket_jobs rand fuel es JOB_ID)
  unfolding bucket_jobs
  bucket-Works [] JOB_ID h = ([], [], JOB_ID, refl, record { next = omega arith; ids = refl }, tt)
  bucket-Works (e ∷ es) JOB_ID (h, hs) =
      let (sent, e', J, runs, numbered, served) = entry-Works e JOB_ID h in
      let (more, es', J', runs', numbered', all_served) = bucket-Works es J hs in
      (
        sent ++ more,
        e' ∷ es',
        J',
        rw (runs, bucket_jobs) (rw (runs', bucket_jobs) refl),
        append-Numbered JOB_ID J J' sent more numbered numbered',
        (served, all_served),
      )

  table-Works :
      (bs : List (List FileTableEntry)) (JOB_ID : ℕ)
      → All (All (Ready fuel)) bs
      → Works (All₂ (All₂ Served)) JOB_ID bs (table_jobs rand fuel bs JOB_ID)
  unfolding table_jobs
  table-Works [] JOB_ID h = ([], [], JOB_ID, refl, record { next = omega arith; ids = refl }, tt)
  table-Works (b ∷ bs) JOB_ID (h, hs) =
      let (sent, b', J, runs, numbered, served) = bucket-Works b JOB_ID h in
      let (more, bs', J', runs', numbered', all_served) = table-Works bs J hs in
      (
        sent ++ more,
        b' ∷ bs',
        J',
        rw (runs, table_jobs) (rw (runs', table_jobs) refl),
        append-Numbered JOB_ID J J' sent more numbered numbered',
        (served, all_served),
      )

-- check_work_queue, where each queued chunk of each entry has a peer, and with more fuel than a queue has
-- chunks: it meets no failed assert, and serves every entry of the table: it takes out of its queue as many
-- chunks as there is room for among 15 outstanding requests, or all, and so many more requests are then
-- outstanding. The job ids of the requests are all the numbers from JOB_ID on, and the next call goes
-- on behind them.
pub check_work_queue_lem :
    {D : Type 0} (rand : ℕ → ℕ) (fuel : ℕ) (c : Client D)
    → All (All (Ready fuel)) c.ft.table
    → (c' : Client D) × (sent : List Sent) × (check_work_queue rand fuel c ≡ some (c', sent))
      × All₂ (All₂ Served) c.ft.table c'.ft.table
      × (job_ids sent ≡ ids_from (first_job c.job_id) (length sent))
      × (first_job c'.job_id ≡ first_job c.job_id + length sent)
unfolding check_work_queue
check_work_queue_lem rand fuel c h =
    let (sent, bs, J, runs, numbered, served) = table-Works rand fuel c.ft.table c.job_id h in
    (
      record c { ft = record (c.ft) { table = bs }; job_id = J },
      sent,
      rw (runs, check_work_queue) refl,
      served,
      numbered.ids,
      numbered.next,
    )
