-- ===== src/Client/Chunks.antt =====
-- client/client.c: the bodies of the loops on chunks in main, check_work_queue, and one round of main.
use seven_deadly_syns.Prelude.{
  ℕ, zero, suc, ◌==◌, if◌then◌else◌, Option, none, some, List, [], ◌∷◌, ◌++◌,
}
use seven_deadly_syns.FileSystem.Types.{Name, FileSystem}
use seven_deadly_syns.ChunkyFile.{
  ChunkyFile, new_for_reading, get_chunk, set_chunk, all_chunks_written,
}
use seven_deadly_syns.FileTable.{
  FileTableEntry, get_job, find_and_remove_job_id, enqueue_work_request, remove_peer,
  get_chunkyfile, set_chunkyfile, set_that_peer_has_file_chunk,
}
use seven_deadly_syns.Client.Updates.{receive_diff, receive_master, check_local_filesystem}
use seven_deadly_syns.Client.{
  Disk, Client, chunkyfile_write, Sent, chunk_got, chunk_request, chunk, chunk_rejection,
}
use seven_deadly_syns.Client.Paths.{append_ds_root}

-- MAX_PENDING_REQUESTS
abbrev pub max_pending_requests : ℕ
max_pending_requests = 15

module _ {D : Type 0} (io : Disk D) (dartsync_dir : Name) where
  -- The ChunkyFile for a path: that of the file table, or one for reading, which is put there.
  -- `modify_time` is what malloc left in it.
  unfoldable pub open_file : ℕ → Client D → Name → Option (ChunkyFile × Client D)
  unfolding get_chunkyfile set_chunkyfile append_ds_root new_for_reading
  open_file modify_time c filepath = elim (get_chunkyfile c.ft filepath) [
    | some file ↦ some (file, c)
    | none ↦ elim (append_ds_root filepath dartsync_dir) [
      | none ↦ none
      | some expanded_path ↦ elim (io.file_bytes c.disk expanded_path) [
        | none ↦ none
        | some bytes ↦
            (let file = new_for_reading bytes modify_time in
              some (file, record c { ft = set_chunkyfile c.ft filepath (some file) }))
      ]
    ]
  ]

  -- The body of the loop on receive_chunk_request.
  unfoldable pub receive_chunk_request : ℕ → Client D → ℕ → Name → ℕ → ℕ → Client D × List Sent
  unfolding open_file get_chunk
  receive_chunk_request modify_time c peer_id filepath chunk_id request_id =
      elim (open_file modify_time c filepath) [
        | none ↦ (c, chunk_rejection peer_id filepath chunk_id request_id ∷ [])
        | some (file, c') ↦
            (c', chunk peer_id filepath chunk_id (get_chunk file chunk_id) request_id ∷ [])
      ]

  -- What becomes of a ChunkyFile after a chunk has come: if that was the last one it is written and given up.
  unfoldable pub keep_file : Client D → Name → ChunkyFile → Option (Client D)
  unfolding all_chunks_written set_chunkyfile chunkyfile_write
  keep_file c filepath file =
      if all_chunks_written file
      then elim (chunkyfile_write io file c.disk) [
        | none ↦ none
        | some d ↦ some (record c { disk = d; ft = set_chunkyfile c.ft filepath none })
      ]
      else some (record c { ft = set_chunkyfile c.ft filepath (some file) })

  -- The body of the loop on receive_chunk. The chunk is `none` for the length -1.
  unfoldable pub receive_chunk :
      Client D → Name → ℕ → Option (List ℕ) → ℕ → Option (Client D × List Sent)
  unfolding find_and_remove_job_id get_chunkyfile enqueue_work_request set_chunk keep_file
  receive_chunk c filepath chunk_id received_data request_id =
      elim (find_and_remove_job_id c.ft filepath request_id) [
        | none ↦ none
        | some (removed, ft') ↦
            (let c' : Client D = record c { ft = ft' } in
              if removed == request_id
              then elim (get_chunkyfile ft' filepath) [
                | none ↦ some (c', [])
                | some file ↦ elim received_data [
                  | none ↦ elim (enqueue_work_request ft' filepath chunk_id) [
                    | none ↦ none
                    | some ft'' ↦ some (record c { ft = ft'' }, [])
                  ]
                  | some chunk_data ↦ elim (set_chunk file chunk_id chunk_data) [
                    | none ↦ none
                    | some file' ↦ elim (keep_file c' filepath file') [
                      | none ↦ none
                      | some c'' ↦ some (
                        record c'' { cur_fs = io.filesystem_new c''.disk dartsync_dir },
                        chunk_got filepath chunk_id ∷ [],
                      )
                    ]
                  ]
                ]
              ]
              else some (c', []))
      ]

-- The inner loop of check_work_queue on an entry, with JOB_ID; `rand` gives the random number of each job.
unfoldable pub entry_jobs :
    (ℕ → ℕ) → ℕ → FileTableEntry → ℕ → Option (List Sent × FileTableEntry × ℕ)
unfolding get_job
entry_jobs rand zero fte JOB_ID = none
entry_jobs rand (suc fuel) fte JOB_ID =
    elim (get_job (rand JOB_ID) fte max_pending_requests JOB_ID) [
      | none ↦ none
      | some (none, fte', JOB_ID') ↦ some ([], fte', JOB_ID')
      | some (some job, fte', JOB_ID') ↦ elim (entry_jobs rand fuel fte' JOB_ID') [
        | none ↦ none
        | some (sent, fte'', JOB_ID'') ↦
            some (chunk_request job.peer fte.path job.chunk job.job_id ∷ sent, fte'', JOB_ID'')
      ]
    ]

-- The outer loop, on the entries of a bucket and on the buckets, in the order of the iterator.
unfoldable pub bucket_jobs :
    (ℕ → ℕ) → ℕ → List FileTableEntry → ℕ → Option (List Sent × List FileTableEntry × ℕ)
unfolding entry_jobs
bucket_jobs rand fuel [] JOB_ID = some ([], [], JOB_ID)
bucket_jobs rand fuel (e ∷ es) JOB_ID = elim (entry_jobs rand fuel e JOB_ID) [
  | none ↦ none
  | some (sent, e', JOB_ID') ↦ elim (bucket_jobs rand fuel es JOB_ID') [
    | none ↦ none
    | some (more, es', JOB_ID'') ↦ some (sent ++ more, e' ∷ es', JOB_ID'')
  ]
]

unfoldable pub table_jobs :
    (ℕ → ℕ)
    → ℕ
    → List (List FileTableEntry)
    → ℕ
    → Option (List Sent × List (List FileTableEntry) × ℕ)
unfolding bucket_jobs
table_jobs rand fuel [] JOB_ID = some ([], [], JOB_ID)
table_jobs rand fuel (b ∷ bs) JOB_ID = elim (bucket_jobs rand fuel b JOB_ID) [
  | none ↦ none
  | some (sent, b', JOB_ID') ↦ elim (table_jobs rand fuel bs JOB_ID') [
    | none ↦ none
    | some (more, bs', JOB_ID'') ↦ some (sent ++ more, b' ∷ bs', JOB_ID'')
  ]
]

-- check_work_queue
unfoldable pub check_work_queue :
    {D : Type 0} → (ℕ → ℕ) → ℕ → Client D → Option (Client D × List Sent)
unfolding table_jobs
check_work_queue rand fuel c = elim (table_jobs rand fuel c.ft.table c.job_id) [
  | none ↦ none
  | some (sent, bs, JOB_ID) ↦
      some (record c { ft = record (c.ft) { table = bs }; job_id = JOB_ID }, sent)
]

-- What the loop of main receives, and what it does at the end of a round.
pub data Event : Type 0 where
  peer_added : ℕ → Event
  peer_deleted : ℕ → Event
  requested : ℕ → Name → ℕ → ℕ → Event
  received : Name → ℕ → Option (List ℕ) → ℕ → Event
  acquired : ℕ → Name → ℕ → Event
  updated : FileSystem → FileSystem → ℕ → Event
  master : FileSystem → Event
  work : Event
  check : ℕ → Event

unfoldable pub handle :
    {D : Type 0} → Disk D → Name → (ℕ → ℕ) → ℕ → Client D → Event → Option (Client D × List Sent)
unfolding remove_peer receive_chunk_request receive_chunk set_that_peer_has_file_chunk receive_diff
    receive_master check_work_queue check_local_filesystem
handle io dir rand fuel c (peer_added peer_id) = some (c, [])
handle io dir rand fuel c (peer_deleted peer_id) =
    some (record c { ft = remove_peer c.ft peer_id }, [])
handle io dir rand fuel c (requested peer_id filepath chunk_id request_id) =
    some (receive_chunk_request io dir (rand 0) c peer_id filepath chunk_id request_id)
handle io dir rand fuel c (received filepath chunk_id received_data request_id) =
    receive_chunk io dir c filepath chunk_id received_data request_id
handle io dir rand fuel c (acquired peer_id filepath chunk_id) =
    elim (set_that_peer_has_file_chunk c.ft filepath peer_id chunk_id) [
      | none ↦ none
      | some ft' ↦ some (record c { ft = ft' }, [])
    ]
handle io dir rand fuel c (updated additions deletions peer_id) =
    elim (receive_diff io dir rand c additions deletions peer_id) [
      | none ↦ none
      | some c' ↦ some (c', [])
    ]
handle io dir rand fuel c (master fs) = receive_master io dir rand c fs
handle io dir rand fuel c work = check_work_queue rand fuel c
handle io dir rand fuel c (check now) = check_local_filesystem io dir rand c now
