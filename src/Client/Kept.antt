-- ===== src/Client/Kept.antt =====
-- What becomes of a ChunkyFile to which a chunk has come, and of its entry in the file table.
use seven_deadly_syns.Prelude.{
  ℕ, ◌==◌, ◌≡◌, ◌≢◌, refl, if◌then◌else◌, Option, none, some, List, [], ◌∷◌, take, Ptr,
  Option-cases, Bool-cases, inl, inr,
}
use seven_deadly_syns.Queue.Spec
use seven_deadly_syns.FileSystem.Types.{Name}
use seven_deadly_syns.ChunkyFile.{ChunkyFile, set_chunk, all_chunks_written}
use seven_deadly_syns.FileTable.{FileTableEntry, entry_at, change_at, set_chunkyfile}
use seven_deadly_syns.Client.{Disk, Client, Sent, put_bytes, chunkyfile_write, chunk_got}
use seven_deadly_syns.Client.Chunks.{keep_file}

-- The entry without an outstanding request.
abbrev pub answered : ℕ → FileTableEntry → FileTableEntry
answered id e = record e { outstanding_requests = Spec.erase (λ i. id == i) e.outstanding_requests }

-- The entry with a chunk to be requested again, and with another ChunkyFile.
abbrev pub again : ℕ → FileTableEntry → FileTableEntry
again chunk_id e = record e { work_queue = Spec.push e.work_queue chunk_id }

abbrev pub with_file : Ptr ChunkyFile → FileTableEntry → FileTableEntry
with_file file e = record e { file = file }

-- What is kept of the file, and the disk then.
abbrev pub still_open : ChunkyFile → Ptr ChunkyFile
still_open file = if all_chunks_written file then none else some file

abbrev pub written_disk : {D : Type 0} → Disk D → ChunkyFile → D → Option D
written_disk io file d =
    if all_chunks_written file
    then elim (file.path) [
      | none ↦ none
      | some path ↦ elim (io.fopen path d) [
        | none ↦ none
        | some d' ↦
            some
              (io.utime path file.modify_time (put_bytes io path (take file.size file.contents) d'))
      ]
    ]
    else some d

-- A ChunkyFile, when there is one, and the disk after it.
abbrev pub with_disk : {D : Type 0} → Disk D → D → Option ChunkyFile → Option (ChunkyFile × D)
with_disk io d none = none
with_disk io d (some file) = elim (written_disk io file d) [
  | none ↦ none
  | some d' ↦ some (file, d')
]

-- The ChunkyFile with the chunk and the disk then; `none` when set_chunk or chunkyfile_write aborts.
abbrev pub arrived : {D : Type 0} → Disk D → ChunkyFile → ℕ → List ℕ → D → Option (ChunkyFile × D)
arrived io file chunk_id chunk_data d = with_disk io d (set_chunk file chunk_id chunk_data)

-- The result of receive_chunk, by that.
abbrev pub IsArrived :
    {D : Type 0}
    → Disk D
    → Name
    → Client D
    → Name
    → ℕ
    → FileTableEntry
    → Option (Client D × List Sent)
    → Option (ChunkyFile × D)
    → Type 0
IsArrived io dir c path chunk_id e r none = r ≡ none
IsArrived {D = D} io dir c path chunk_id e r (some (file', d)) =
    (c' : Client D) × (r ≡ some (c', chunk_got path chunk_id ∷ []))
    × (c'.disk ≡ d)
    × (c'.cur_fs ≡ io.filesystem_new d dir)
    × (entry_at c'.ft path ≡ some (with_file (still_open file') e))
    × ((other : Name) → other ≢ path → entry_at c'.ft other ≡ entry_at c.ft other)

-- keep_file, by the disk then.
abbrev pub kept : {D : Type 0} → Client D → Name → ChunkyFile → Option D → Option (Client D)
kept c path file none = none
kept c path file (some d) =
    some (record c { disk = d; ft = change_at c.ft path (with_file (still_open file)) })

pub keep_file_lem :
    {D : Type 0} (io : Disk D) (dir : Name) (c : Client D) (path : Name) (file : ChunkyFile)
    → keep_file io dir c path file ≡ kept c path file (written_disk io file c.disk)
unfolding keep_file set_chunkyfile chunkyfile_write
keep_file_lem io dir c path file = elim (Bool-cases (all_chunks_written file)) [
  | inl all ↦ elim (Option-cases (file.path)) [
    | inl reading ↦ rw (all, reading, keep_file) refl
    | inr (to, writing) ↦ elim (Option-cases (io.fopen to c.disk)) [
      | inl closed ↦ rw (all, writing, keep_file) (rw (closed, keep_file) refl)
      | inr (d, opened) ↦ rw (all, writing, keep_file) (rw (opened, keep_file) (rw (all) refl))
    ]
  ]
  | inr missing ↦ rw (missing, keep_file) (rw (missing) refl)
]
