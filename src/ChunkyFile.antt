-- ===== src/ChunkyFile.antt =====
-- utility/ChunkyFile/ChunkyFile.c: a file in memory that is read and written chunk by chunk.
-- stat and fgetc are not modelled: a file that is read is its bytes. chunkyfile_write is in Client, with
-- the disk.
pub mod Chunks
pub mod Write
mod Tests
use seven_deadly_syns.Prelude.{
  ℕ, zero, suc, ◌+◌, ◌-◌, ◌*◌, ◌/◌, ◌%◌, Bool, true, false, ◌==◌, ltb, if◌then◌else◌, Option, none,
  some, List, [], ◌∷◌, ◌++◌, Ptr, get_or, set, take, drop, length, replicate,
}

-- CHUNKYFILE_CHUNK_SIZE
abbrev pub chunk_size : ℕ
chunk_size = 500000

-- `_ChunkyFile`.
pub record ChunkyFile : Type 0 where
  pub path : Ptr (List ℕ)
  pub contents : List ℕ
  pub size : ℕ
  pub chunks_written : List Bool
  pub modify_time : ℕ

unfoldable pub num_chunks_for_size : ℕ → ℕ
num_chunks_for_size size =
    if size % chunk_size == 0 then size / chunk_size else size / chunk_size + 1

unfoldable pub num_chunks : ChunkyFile → ℕ
unfolding num_chunks_for_size
num_chunks cf = num_chunks_for_size cf.size

-- `db[i % 8]` for the `n` indices from `i` on.
filler : ℕ → ℕ → List ℕ
filler zero i = []
filler (suc n) i =
    get_or (0x44 ∷ 0x45 ∷ 0x41 ∷ 0x44 ∷ 0x42 ∷ 0x45 ∷ 0x45 ∷ 0x46 ∷ []) (i % 8) 0 ∷ filler n (i + 1)

-- chunkyfile_new_for_writing_to_path
unfoldable pub new_for_writing : List ℕ → ℕ → ℕ → ChunkyFile
unfolding filler num_chunks_for_size
new_for_writing path size modify_time = record {
  path = some path;
  contents = filler size 0;
  size = size;
  chunks_written = replicate (num_chunks_for_size size) false;
  modify_time = modify_time;
}

-- chunkyfile_new_for_reading_from_path on a regular file of these bytes; `modify_time` is what
-- malloc left there.
unfoldable pub new_for_reading : List ℕ → ℕ → ChunkyFile
unfolding num_chunks_for_size
new_for_reading bytes modify_time = record {
  path = none;
  contents = bytes;
  size = length bytes;
  chunks_written = replicate (num_chunks_for_size (length bytes)) false;
  modify_time = modify_time;
}

-- The `chunkSize` of chunkyfile_get_chunk. `chunkNum == num_chunks - 1` is over `int`: with no
-- chunks it holds of no index.
unfoldable pub get_chunk_size : ChunkyFile → ℕ → ℕ
get_chunk_size cf chunk_num =
    if chunk_num + 1 == num_chunks cf then cf.size % chunk_size else chunk_size

-- The `n` bytes from `data + i` on.
unfoldable pub bytes_at : List ℕ → ℕ → ℕ → List ℕ
bytes_at bytes i n = take n (drop i bytes)

-- The bytes that `*chunk` and `*chunkSize` describe. For a `chunkNum` that the file does not have they lie
-- behind `data`, and what stands there is not modelled.
unfoldable pub get_chunk : ChunkyFile → ℕ → List ℕ
get_chunk cf chunk_num = bytes_at cf.contents (chunk_num * chunk_size) (get_chunk_size cf chunk_num)

-- `memcpy(data + at, chunk, size)`; `none` is a write past the end of the data.
unfoldable pub copy_to : List ℕ → ℕ → List ℕ → Option (List ℕ)
copy_to dest zero [] = some dest
copy_to [] zero (b ∷ bs) = none
copy_to (x ∷ xs) zero (b ∷ bs) = put b (copy_to xs zero bs)
  where
    put : ℕ → Option (List ℕ) → Option (List ℕ)
    put c none = none
    put c (some ys) = some (c ∷ ys)
copy_to [] (suc n) bs = none
copy_to (x ∷ xs) (suc n) bs = keep x (copy_to xs n bs)
  where
    keep : ℕ → Option (List ℕ) → Option (List ℕ)
    keep c none = none
    keep c (some ys) = some (c ∷ ys)

-- chunkyfile_set_chunk. `chunkSize` is the length of the chunk; another one than expected is only
-- reported. `none` is a write outside an array.
unfoldable pub set_chunk : ChunkyFile → ℕ → List ℕ → Option ChunkyFile
unfolding copy_to
set_chunk cf chunk_num chunk =
    if ltb chunk_num (length cf.chunks_written)
    then elim (copy_to cf.contents (chunk_num * chunk_size) chunk) [
      | none ↦ none
      | some bytes ↦
          some
            (record cf { contents = bytes; chunks_written = set cf.chunks_written chunk_num true })
    ]
    else none

-- The loop of chunkyfile_all_chunks_written.
written_from : List Bool → ℕ → ℕ → Bool
written_from flags zero i = true
written_from flags (suc n) i =
    let rest = written_from flags n (i + 1) in if get_or flags i false then rest else false

unfoldable pub all_chunks_written : ChunkyFile → Bool
unfolding written_from num_chunks
all_chunks_written cf = written_from cf.chunks_written (num_chunks cf) 0
