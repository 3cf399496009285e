-- ===== src/FileTable.antt =====
-- utility/FileTable/FileTable.c: who has which chunk of which file, and what is still to be fetched.
-- The queues of an entry are lists, ids of peers and of jobs are numbers. `none` is a failed assert or
-- the use of an entry or a chunk that is not there.
pub mod Hash
pub mod Codec
pub mod Peers
pub mod Reading
pub mod RoundTrip
mod Tests
use seven_deadly_syns.Prelude.{
  ℕ, zero, suc, ◌+◌, ◌-◌, ◌%◌, ◌==◌, ltb, leb, Bool, true, false, not, if◌then◌else◌, Option, none,
  some, List, [], ◌∷◌, ◌++◌, map, length, get_elem?, get_or, set, Ptr,
}
use seven_deadly_syns.Queue.Spec
use seven_deadly_syns.FileSystem.Types.{Name, File, FileSystem, name_eq}
use seven_deadly_syns.FileSystem.Listing.{relative_iterator, file_first}
use seven_deadly_syns.ChunkyFile.{ChunkyFile, num_chunks_for_size}
use seven_deadly_syns.HashTable.{
  HashTable, bucket_search, bucket, get_element, remove_element, add, emptied,
}
use seven_deadly_syns.HashTable
use seven_deadly_syns.FileTable.Hash.{hash_pjw}

-- `FileTableEntry`
pub record FileTableEntry : Type 0 where
  pub path : Name
  pub file : Ptr ChunkyFile
  pub chunks : List (List ℕ)
  pub work_queue : List ℕ
  pub outstanding_requests : List ℕ

-- `_FileTable`
abbrev pub FileTable : Type 0
FileTable = HashTable FileTableEntry

unfoldable pub hash : FileTableEntry → ℕ
unfolding hash_pjw
hash e = hash_pjw e.path

unfoldable pub equals : FileTableEntry → FileTableEntry → Bool
equals e0 e1 = name_eq e0.path e1.path

-- `FileTableEntry search; search.path = path;`
abbrev pub search : Name → FileTableEntry
search path = record {
  path = path;
  file = none;
  chunks = [];
  work_queue = [];
  outstanding_requests = [];
}

unfoldable pub entry_at : FileTable → Name → Option FileTableEntry
unfolding get_element hash equals
entry_at ft path = get_element hash equals ft (search path)

-- A change of the entry that hashtable_get_element gives, through its pointer.
unfoldable pub change :
    (FileTableEntry → Bool)
    → (FileTableEntry → FileTableEntry)
    → List FileTableEntry
    → List FileTableEntry
change test f [] = []
change test f (e ∷ es) = if test e then f e ∷ es else e ∷ change test f es

unfoldable pub change_at : FileTable → Name → (FileTableEntry → FileTableEntry) → FileTable
unfolding change bucket hash equals bucket_search
change_at ft path f = record ft {
  table =
      set ft.table (hash (search path) % ft.tablesize)
        (change (bucket_search hash equals (search path)) f (bucket hash equals ft (search path)));
}

-- filetable_enqueue_work_request
unfoldable pub enqueue_work_request : FileTable → Name → ℕ → Option FileTable
unfolding entry_at change_at Spec.push
enqueue_work_request ft path chunk = elim (entry_at ft path) [
  | none ↦ none
  | some fte ↦
      some (change_at ft path (λ e. record e { work_queue = Spec.push e.work_queue chunk }))
]

-- What filetableentry_get_job fills in.
pub record Job : Type 0 where
  pub chunk : ℕ
  pub peer : ℕ
  pub job_id : ℕ

-- filetableentry_get_job: JOB_ID is the number of the last call, `rand` what rand() gives. The result is
-- the job, if there is one, the entry and JOB_ID.
unfoldable pub get_job : ℕ → FileTableEntry → ℕ → ℕ → Option (Option Job × FileTableEntry × ℕ)
unfolding Spec.push
get_job rand entry max_pending JOB_ID =
    let job_id = if JOB_ID == 0 then 1 else JOB_ID in
    if ltb (length entry.outstanding_requests) max_pending
    then elim (entry.work_queue) [
      | [] ↦ some (none, entry, job_id)
      | chunk ∷ rest ↦ elim (get_elem? entry.chunks chunk) [
        | none ↦ none
        | some [] ↦ none
        | some (p ∷ ps) ↦ some (
          some (record {
            chunk = chunk;
            peer = get_or (p ∷ ps) (rand % length (p ∷ ps)) 0;
            job_id = job_id;
          }),
          record entry {
            work_queue = rest;
            outstanding_requests = Spec.push entry.outstanding_requests job_id;
          },
          job_id + 1,
        )
      ]
    ]
    else some (none, entry, job_id)

-- filetable_find_and_remove_job_id: the id that was removed, 0 if it was not there.
unfoldable pub find_and_remove_job_id : FileTable → Name → ℕ → Option (ℕ × FileTable)
unfolding entry_at change_at Spec.find Spec.erase
find_and_remove_job_id ft path job_id = elim (entry_at ft path) [
  | none ↦ none
  | some fte ↦ some (
    elim (Spec.find (λ i. job_id == i) fte.outstanding_requests) [ none ↦ 0 | some i ↦ i ],
    change_at ft path (λ e. record e {
      outstanding_requests = Spec.erase (λ i. job_id == i) e.outstanding_requests;
    }),
  )
]

-- queue_shuffle on a list, from index `i` down to 1.
unfoldable pub shuffle_from : (ℕ → ℕ) → ℕ → List ℕ → List ℕ
shuffle_from rand zero xs = xs
shuffle_from rand (suc i) xs =
    let j = rand (suc i) % suc i in
    shuffle_from rand i (set (set xs (suc i) (get_or xs j 0)) j (get_or xs (suc i) 0))

unfoldable pub shuffle : (ℕ → ℕ) → List ℕ → List ℕ
unfolding shuffle_from
shuffle rand xs = shuffle_from rand (length xs - 1) xs

-- `for (int i = 0; i < numChunks; i++)`
unfoldable pub chunk_numbers : ℕ → ℕ → List ℕ
chunk_numbers i zero = []
chunk_numbers i (suc n) = i ∷ chunk_numbers (i + 1) n

-- One listed file in filetable_enqueue_work_for_filesystem.
unfoldable pub enqueue_work : (ℕ → ℕ) → List File → FileTable → Option FileTable
unfolding entry_at change_at chunk_numbers shuffle num_chunks_for_size
enqueue_work rand [] ft = some ft
enqueue_work rand (f ∷ fs) ft = elim (f.is_folder) [
  | true ↦ enqueue_work rand fs ft
  | false ↦ elim (entry_at ft f.name) [
    | none ↦ none
    | some entry ↦ enqueue_work rand fs (
        change_at ft f.name (λ e. record e {
          work_queue = shuffle rand (e.work_queue ++ chunk_numbers 0 (num_chunks_for_size f.size));
        }))
  ]
]

unfoldable pub enqueue_work_for_filesystem : (ℕ → ℕ) → FileTable → FileSystem → Option FileTable
unfolding enqueue_work relative_iterator
enqueue_work_for_filesystem rand ft fs = elim (relative_iterator fs true) [
  | none ↦ none
  | some listed ↦ enqueue_work rand listed ft
]

-- The chunks of a new file: each is with the one peer.
unfoldable pub owned_by : ℕ → ℕ → List (List ℕ)
owned_by peer zero = []
owned_by peer (suc n) = (peer ∷ []) ∷ owned_by peer n

-- `newEntry` of filetable_add_filesystem.
unfoldable pub new_entry : (ℕ → ℕ) → File → ℕ → Bool → FileTableEntry
unfolding owned_by chunk_numbers shuffle num_chunks_for_size
new_entry rand f peer needs_data = record {
  path = f.name;
  file = none;
  chunks = owned_by peer (num_chunks_for_size f.size);
  work_queue =
      if needs_data then shuffle rand (chunk_numbers 0 (num_chunks_for_size f.size)) else [];
  outstanding_requests = [];
}

-- filetable_remove_file
unfoldable pub remove_file : FileTable → Name → FileTable
unfolding remove_element hash equals
remove_file ft path = (remove_element hash equals ft (search path)).1

-- The loop of filetable_add_filesystem: the old entry is removed, if there is one.
unfoldable pub add_listed : (ℕ → ℕ) → ℕ → Bool → List File → FileTable → FileTable
unfolding remove_file add new_entry hash equals
add_listed rand peer needs_data [] ft = ft
add_listed rand peer needs_data (f ∷ fs) ft = add_listed rand peer needs_data fs (
    if f.is_folder
    then ft
    else add hash equals (remove_file ft f.name) (new_entry rand f peer needs_data))

unfoldable pub add_filesystem : (ℕ → ℕ) → FileTable → FileSystem → ℕ → Bool → FileTable
unfolding add_listed file_first
add_filesystem rand ft fs peer needs_data =
    add_listed rand peer needs_data (file_first [] fs.root) ft

-- filetable_remove_filesystem
unfoldable pub remove_listed : List File → FileTable → FileTable
unfolding remove_file
remove_listed [] ft = ft
remove_listed (f ∷ fs) ft = remove_listed fs (if f.is_folder then ft else remove_file ft f.name)

unfoldable pub remove_filesystem : FileTable → FileSystem → FileTable
unfolding remove_listed file_first
remove_filesystem ft fs = remove_listed (file_first [] fs.root) ft

-- filetable_get_num_chunks
unfoldable pub get_num_chunks : FileTable → Name → Option ℕ
unfolding entry_at
get_num_chunks ft path = elim (entry_at ft path) [
  | none ↦ none
  | some fte ↦ some (length fte.chunks)
]

-- filetable_get_peers_who_have_file_chunk: NULL is the inner none. queue_get at the length of the queue
-- reads a slot that was never filled.
unfoldable pub get_peers : FileTable → Name → ℕ → Option (Option (List ℕ))
unfolding entry_at
get_peers ft path chunk = elim (entry_at ft path) [
  | none ↦ some none
  | some fte ↦
      if leb chunk (length fte.chunks)
      then elim (get_elem? fte.chunks chunk) [ none ↦ none | some peers ↦ some (some peers) ]
      else some none
]

-- filetable_set_that_peer_has_file_chunk
unfoldable pub set_that_peer_has_file_chunk : FileTable → Name → ℕ → ℕ → Option FileTable
unfolding get_peers change_at Spec.push Spec.find
set_that_peer_has_file_chunk ft path peer chunk = elim (get_peers ft path chunk) [
  | none ↦ none
  | some none ↦ none
  | some (some peers) ↦ elim (Spec.find (λ p. p == peer) peers) [
    | some p ↦ some ft
    | none ↦
        some
          (change_at ft path (λ e. record e { chunks = set e.chunks chunk (Spec.push peers peer) }))
  ]
]

-- filetable_remove_peer: every chunk of every entry, with queue_filter.
unfoldable pub without_peer : ℕ → FileTableEntry → FileTableEntry
unfolding Spec.filter
without_peer id e = record e { chunks = map (Spec.filter (λ p. not (p == id))) e.chunks }

unfoldable pub remove_peer : FileTable → ℕ → FileTable
unfolding without_peer
remove_peer ft id = record ft { table = map (map (without_peer id)) ft.table }

-- filetable_get_chunkyfile and filetable_set_chunkyfile
unfoldable pub get_chunkyfile : FileTable → Name → Ptr ChunkyFile
unfolding entry_at
get_chunkyfile ft path = elim (entry_at ft path) [ none ↦ none | some fte ↦ fte.file ]

unfoldable pub set_chunkyfile : FileTable → Name → Ptr ChunkyFile → FileTable
unfolding change_at
set_chunkyfile ft path file = change_at ft path (λ e. record e { file = file })
