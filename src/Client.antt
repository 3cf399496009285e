-- ===== src/Client.antt =====
-- client/client.c: a client keeps its directory the same as the tracker's tree. What stands behind stat,
-- fts, mkdir, remove, fopen, fputc and utime is a parameter, as is rand. The calls of send_ functions
-- are messages. `none` is a failed assert or a read through NULL.
pub mod Paths
pub mod Updates
pub mod Chunks
pub mod Jobs
pub mod Work
pub mod Report
pub mod Kept
pub mod Arrival
mod Tests
use seven_deadly_syns.Prelude.{
  ℕ, zero, suc, ◌+◌, ◌-◌, ◌==◌, ◌&&◌, ltb, Bool, true, false, not, if◌then◌else◌, Option, none,
  some, List, [], ◌∷◌, ◌++◌, map, take, Ptr,
}
use seven_deadly_syns.FileSystem.Types.{Name, File, FileSystem}
use seven_deadly_syns.FileSystem.Subtract.{diff, filesystem_equals}
use seven_deadly_syns.FileSystem.Listing.{iterator, relative_iterator}
use seven_deadly_syns.FileSystem.Update.{minus_equals, plus_equals}
use seven_deadly_syns.ChunkyFile.{ChunkyFile, num_chunks_for_size, num_chunks, new_for_writing}
use seven_deadly_syns.FileTable.{
  FileTable, remove_filesystem, add_filesystem, set_chunkyfile, enqueue_work_for_filesystem,
  chunk_numbers,
}
use seven_deadly_syns.Client.Paths.{append_ds_root}

-- The disk: the tree that filesystem_new finds in the directory, the bytes of a regular file that can be
-- opened, mkdir, remove, fopen with "w+" (`none` for NULL), fputc to the file of a path, and utime.
pub record Disk (D : Type 0) : Type 0 where
  pub filesystem_new : D → Name → FileSystem
  pub file_bytes : D → Name → Option (List ℕ)
  pub mkdir : Name → D → D
  pub remove : Name → D → D
  pub fopen : Name → D → Option D
  pub fputc : Name → ℕ → D → D
  pub utime : Name → ℕ → D → D

-- The loop of chunkyfile_write.
unfoldable pub put_bytes : {D : Type 0} → Disk D → Name → List ℕ → D → D
put_bytes io path [] d = d
put_bytes io path (b ∷ bs) d = put_bytes io path bs (io.fputc path b d)

-- chunkyfile_write, whose assert fails for a ChunkyFile for reading; fclose does not take a NULL.
unfoldable pub chunkyfile_write : {D : Type 0} → Disk D → ChunkyFile → D → Option D
unfolding put_bytes
chunkyfile_write io cf d = elim (cf.path) [
  | none ↦ none
  | some path ↦ elim (io.fopen path d) [
    | none ↦ none
    | some d' ↦
        some (io.utime path cf.modify_time (put_bytes io path (take cf.size cf.contents) d'))
  ]
]

-- The calls send_chunk_got, send_updated_files, send_chunk_request, send_chunk and send_chunk_rejection.
pub data Sent : Type 0 where
  chunk_got : Name → ℕ → Sent
  updated_files : FileSystem → FileSystem → Sent
  chunk_request : ℕ → Name → ℕ → ℕ → Sent
  chunk : ℕ → Name → ℕ → List ℕ → ℕ → Sent
  chunk_rejection : ℕ → Name → ℕ → ℕ → Sent

-- The global variables, with the JOB_ID of filetableentry_get_job. A time is in microseconds.
pub record Client (D : Type 0) : Type 0 where
  pub disk : D
  pub cur_fs : FileSystem
  pub prev_fs : Ptr FileSystem
  pub prev_time : ℕ
  pub ft : FileTable
  pub job_id : ℕ

-- `myID` is never assigned.
abbrev pub my_id : ℕ
my_id = 0

-- CheckFileSystem: is there an entry?
unfoldable pub check_file_system : FileSystem → Option Bool
unfolding iterator
check_file_system fs = elim (iterator fs false) [
  | none ↦ none
  | some [] ↦ some false
  | some (f ∷ fs') ↦ some true
]

-- The chunks of the local files, for the tracker. The number of chunks of a folder is -1 / 500000 + 1,
-- and it is skipped.
unfoldable pub local_chunks : List File → List Sent
unfolding num_chunks_for_size chunk_numbers
local_chunks [] = []
local_chunks (f ∷ fs) =
    let rest = local_chunks fs in
    if f.is_folder
    then rest
    else map (λ i. chunk_got f.name i) (chunk_numbers 0 (num_chunks_for_size f.size)) ++ rest

module _ {D : Type 0} (io : Disk D) (dartsync_dir : Name) where
  -- The loop of RemoveFileDeletions.
  unfoldable pub remove_all : List File → D → D
  remove_all [] d = d
  remove_all (f ∷ fs) d = remove_all fs (io.remove f.name d)

  -- RemoveFileDeletions
  unfoldable pub remove_file_deletions : Client D → FileSystem → Option (Client D)
  unfolding remove_all iterator
  remove_file_deletions c deletions = elim (iterator deletions true) [
    | none ↦ none
    | some listed ↦
        (let d = remove_all listed c.disk in
          some (record c { disk = d; cur_fs = io.filesystem_new d dartsync_dir }))
  ]

  -- The entry of an addition: a directory is made, a file gets a ChunkyFile. `no_chunks` is whether a file
  -- without chunks is written at once. A NULL path makes mkdir fail, and copy_string reads through it.
  unfoldable pub make_addition : Bool → File → D → FileTable → Option (D × FileTable)
  unfolding append_ds_root new_for_writing num_chunks set_chunkyfile chunkyfile_write
  make_addition no_chunks f d ft =
      if f.is_folder
      then elim (append_ds_root f.name dartsync_dir) [
        | none ↦ some (d, ft)
        | some path ↦ some (io.mkdir path d, ft)
      ]
      else elim (append_ds_root f.name dartsync_dir) [
        | none ↦ none
        | some path ↦
            (let file = new_for_writing path f.size f.last_modified in
              elim (if no_chunks && ltb (num_chunks file) 1
                then chunkyfile_write io file d
                else some d) [
                  | none ↦ none
                  | some d' ↦ some (d', set_chunkyfile ft f.name (some file))
                ])
      ]

  unfoldable pub make_additions : Bool → List File → D → FileTable → Option (D × FileTable)
  unfolding make_addition
  make_additions no_chunks [] d ft = some (d, ft)
  make_additions no_chunks (f ∷ fs) d ft = elim (make_addition no_chunks f d ft) [
    | none ↦ none
    | some (d', ft') ↦ make_additions no_chunks fs d' ft'
  ]

  -- GetFileAdditions
  unfoldable pub get_file_additions : Client D → FileSystem → Option (Client D)
  unfolding make_additions relative_iterator
  get_file_additions c additions = elim (relative_iterator additions false) [
    | none ↦ none
    | some listed ↦ elim (make_additions true listed c.disk c.ft) [
      | none ↦ none
      | some (d, ft') ↦ some (record c { disk = d; ft = ft' })
    ]
  ]
