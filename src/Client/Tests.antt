-- ===== src/Client/Tests.antt =====
-- The theorems of Client at a client whose file has changed.
use seven_deadly_syns.Prelude.{
  ◌+◌, ◌++◌, length, take, drop, ℕ, ◌≡◌, refl, true, none, some, List, [], ◌∷◌, arith,
}
use seven_deadly_syns.FileSystem.Types.{Name, File, FileSystem, file_equals, name_eq, same_flag}
use seven_deadly_syns.FileSystem.Paths.{files_at}
use seven_deadly_syns.FileSystem.Diff.{has, filesystem_equals_refl}
use seven_deadly_syns.FileSystem.OneFile.{tree, tree-Good, tree-IsNamed}
use seven_deadly_syns.FileSystem.Unary.{unary_io}
use seven_deadly_syns.Tracker.{Tracker, Message, create_peer_table, update_network}
use seven_deadly_syns.FileSystem.Subtract.{diff, subtract_files}
use seven_deadly_syns.FileSystem.Listing.{iterator}
use seven_deadly_syns.Queue.Spec
use seven_deadly_syns.Network.Bodies.{send_updated_files, receive_client_update}
use seven_deadly_syns.Client.Updates.{check_local_filesystem}
use seven_deadly_syns.Client.{Disk, Client, put_bytes, updated_files, check_file_system}
use seven_deadly_syns.FileTable.{FileTableEntry}
use seven_deadly_syns.Client.{Sent, chunk_request}
use seven_deadly_syns.Client.Chunks.{entry_jobs, check_work_queue}
use seven_deadly_syns.Client.Jobs.{
  HasPeers, first_job, AreRequests, ids_from, asked, entry_jobs_lem,
}
use seven_deadly_syns.Client.Work.{job_ids, All₂, Served, check_work_queue_lem}
use seven_deadly_syns.ChunkyFile.{ChunkyFile, new_for_writing, set_chunk, all_chunks_written}
use seven_deadly_syns.Client.Kept.{arrived}
use seven_deadly_syns.Client.Report.{some_change, report_lem}
use seven_deadly_syns.FileSystem.Serial.RoundTrip.{IsNamed}

-- A disk that is only the tree of its directory.
abbrev tree_disk : Disk FileSystem
tree_disk = record {
  filesystem_new = λ d dir. d;
  file_bytes = λ d path. none;
  mkdir = λ path d. d;
  remove = λ path d. d;
  fopen = λ path d. some d;
  fputc = λ path byte d. d;
  utime = λ path time d. d;
}

abbrev synced : ℕ → FileSystem
synced t = record { root_path = some (b'/' ∷ []); root = (tree t).root }

abbrev changed : Client FileSystem
changed = record {
  disk = synced 8;
  cur_fs = synced 5;
  prev_fs = some (synced 8);
  prev_time = 1000000;
  ft = record { table = [] ∷ []; tablesize = 1 };
  job_id = 0;
}

abbrev tracker : Tracker
tracker = record {
  fs = tree 5;
  filetable = record { table = [] ∷ []; tablesize = 1 };
  peer_table = create_peer_table;
}

some_differ :
    let (adds, dels) = diff (synced 5) (synced 8) in
    some_change (check_file_system adds) (check_file_system dels) ≡ true
unfolding check_file_system diff iterator subtract_files Spec.erase file_equals name_eq same_flag
some_differ = refl

added-IsNamed : IsNamed (diff (synced 5) (synced 8)).0.root
unfolding diff subtract_files Spec.erase file_equals name_eq
added-IsNamed = tree-IsNamed 8

deleted-IsNamed : IsNamed (diff (synced 5) (synced 8)).1.root
unfolding diff subtract_files Spec.erase file_equals name_eq
deleted-IsNamed = tree-IsNamed 5

report_lem_example :
    let (adds, dels) = diff (synced 5) (synced 8) in
    (c' : Client FileSystem) × (check_local_filesystem tree_disk
        (b'/' ∷ [])
        (λ i. i)
        changed
        7000000
      ≡ some (c', updated_files adds dels ∷ []))
    × (c'.cur_fs ≡ synced 8)
    × (additions : FileSystem) × (deletions : FileSystem) × (receive_client_update unary_io
          (send_updated_files unary_io adds dels)
        ≡ some (additions, deletions))
    × (t' : Tracker) × (sent : List Message) × (update_network
          (λ i. i)
          tracker
          6
          additions
          deletions
        ≡ some (t', sent))
    × ((p : List Name) (x : File)
        → has x (files_at p t'.fs.root) ≡ has x (files_at p (synced 8).root))
report_lem_example =
    report_lem tree_disk (b'/' ∷ []) (λ i. i) changed 7000000 (synced 8) unary_io tracker 6 refl
      refl (filesystem_equals_refl (synced 8)) some_differ refl (tree-Good 5) (tree-Good 8)
      added-IsNamed deleted-IsNamed

-- An entry with 14 outstanding requests and two chunks to fetch.
abbrev busy_entry : FileTableEntry
busy_entry = record {
  path = b'/' ∷ b'a' ∷ [];
  file = none;
  chunks = (4 ∷ 6 ∷ []) ∷ (6 ∷ []) ∷ [];
  work_queue = 1 ∷ 0 ∷ [];
  outstanding_requests = ids_from 1 14;
}

abbrev busy : Client FileSystem
busy = record changed { ft = record { table = (busy_entry ∷ []) ∷ []; tablesize = 1 }; job_id = 15 }

busy-HasPeers : HasPeers busy_entry.chunks busy_entry.work_queue
busy-HasPeers = ((6, [], refl), ((4, 6 ∷ [], refl), tt))

entry_jobs_lem_example :
    (sent : List Sent) × (fte' : FileTableEntry) × (entry_jobs (λ i. i) 3 busy_entry 15
      ≡ some (sent, fte', first_job 15 + asked busy_entry))
    × AreRequests busy_entry.path busy_entry.chunks
        (take (asked busy_entry) busy_entry.work_queue)
        (first_job 15)
        sent
    × (fte'.work_queue ≡ drop (asked busy_entry) busy_entry.work_queue)
    × (fte'.outstanding_requests
        ≡ busy_entry.outstanding_requests ++ ids_from (first_job 15) (asked busy_entry))
    × (fte'.path ≡ busy_entry.path)
    × (fte'.chunks ≡ busy_entry.chunks)
entry_jobs_lem_example = entry_jobs_lem (λ i. i) 3 busy_entry 15 (omega arith) busy-HasPeers

check_work_queue_lem_example :
    (c' : Client FileSystem) × (sent : List Sent) × (check_work_queue (λ i. i) 3 busy
      ≡ some (c', sent))
    × All₂ (All₂ Served) busy.ft.table c'.ft.table
    × (job_ids sent ≡ ids_from (first_job 15) (length sent))
    × (first_job c'.job_id ≡ first_job 15 + length sent)
check_work_queue_lem_example =
    check_work_queue_lem (λ i. i) 3 busy (((omega arith, busy-HasPeers), tt), tt)

one_sent :
    elim (check_work_queue (λ i. i) 3 busy) [ none ↦ [] | some (c', sent) ↦ sent ]
    ≡ chunk_request 6 (b'/' ∷ b'a' ∷ []) 1 15 ∷ []
unfolding check_work_queue Spec.push
one_sent = refl

-- The file `a`, of three bytes, whose one chunk is asked for with the id 4.
abbrev open_chunky : ChunkyFile
open_chunky = new_for_writing (b'/' ∷ b'a' ∷ []) 3 8

abbrev open_entry : FileTableEntry
open_entry = record {
  path = b'/' ∷ b'a' ∷ [];
  file = some open_chunky;
  chunks = (6 ∷ []) ∷ [];
  work_queue = [];
  outstanding_requests = 4 ∷ [];
}

abbrev waiting : Client FileSystem
waiting = record changed { ft = record { table = (open_entry ∷ []) ∷ []; tablesize = 1 } }

abbrev full_chunky : ChunkyFile
full_chunky = record open_chunky { contents = 7 ∷ 8 ∷ 9 ∷ []; chunks_written = true ∷ [] }

-- The last chunk: the file is written.
last_chunk :
    arrived tree_disk open_chunky 0 (7 ∷ 8 ∷ 9 ∷ []) waiting.disk ≡ some (full_chunky, waiting.disk)
unfolding set_chunk new_for_writing all_chunks_written put_bytes
last_chunk = refl

abbrev a_path : Name
a_path = b'/' ∷ b'a' ∷ []
