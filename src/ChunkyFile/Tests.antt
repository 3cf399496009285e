-- ===== src/ChunkyFile/Tests.antt =====
-- The theorems of ChunkyFile at concrete files.
use seven_deadly_syns.Prelude.{
  ◌-◌, ◌*◌, ◌%◌, ◌≡◌, refl, true, false, ◌==◌, if◌then◌else◌, none, some, [], ◌∷◌, ◌++◌, take, drop,
  set, arith,
}
use seven_deadly_syns.ChunkyFile.{ChunkyFile, chunk_size, num_chunks, bytes_at, set_chunk}
use seven_deadly_syns.ChunkyFile.Chunks.{chunks_from, chunks_cover}
use seven_deadly_syns.ChunkyFile.Write.{set_chunk_lem}

abbrev small : ChunkyFile
small = record {
  path = none;
  contents = 1 ∷ 2 ∷ 3 ∷ [];
  size = 3;
  chunks_written = false ∷ [];
  modify_time = 0;
}

chunks_cover_example :
    chunks_from small (num_chunks small) 0
    ≡ (if 3 % chunk_size == 0 then bytes_at small.contents 0 (3 - chunk_size) else small.contents)
chunks_cover_example = chunks_cover small refl

set_chunk_lem_example :
    set_chunk small 0 (7 ∷ 8 ∷ 9 ∷ [])
    ≡ some (record small {
      contents =
          take (0 * chunk_size) small.contents
          ++ ((7 ∷ 8 ∷ 9 ∷ []) ++ drop 3 (drop (0 * chunk_size) small.contents));
      chunks_written = set small.chunks_written 0 true;
    })
set_chunk_lem_example = set_chunk_lem small 0 (7 ∷ 8 ∷ 9 ∷ []) (omega arith) (omega arith)
