-- ===== src/FileTable/Tests.antt =====
-- The theorems of FileTable at a table of two files.
use seven_deadly_syns.Prelude.{
  ℕ, ◌<◌, ◌≡◌, ◌≢◌, refl, ◌==◌, ◌&&◌, not, none, some, List, [], ◌∷◌, ◌++◌, zero, suc, replicate,
  length, length-replicate, ap, if◌then◌else◌, arith,
}
use seven_deadly_syns.Queue.Spec
use seven_deadly_syns.FileSystem.Types.{Name, name_eq}
use seven_deadly_syns.HashTable.{get_element, bucket_search, bucket}
use seven_deadly_syns.HashTable.Lookup.{IsValid}
use seven_deadly_syns.FileTable.{
  FileTableEntry, FileTable, hash, equals, entry_at, get_peers, set_that_peer_has_file_chunk,
  remove_peer,
}
use seven_deadly_syns.FileSystem.Serial.{NoNull}
use seven_deadly_syns.HashTable.Lookup.{elements}
use seven_deadly_syns.FileTable.Codec.{Stdio, serialize, deserialize}
use seven_deadly_syns.FileTable.Reading.{stored, ArePaths}
use seven_deadly_syns.FileTable.RoundTrip.{deserialize-serialize_table}
use seven_deadly_syns.FileTable.Hash.{hash_pjw, hash_pjw-below}
use seven_deadly_syns.FileTable.Peers.{
  with_peer, lists, chunk_count, map_option, set_peer_lem, remove_peer_lem,
}

abbrev entry : Name → List (List ℕ) → FileTableEntry
entry path chunks = record {
  path = path;
  file = none;
  chunks = chunks;
  work_queue = [];
  outstanding_requests = [];
}

-- The file `a` has two chunks, the second of which is with peer 5 only; `b` has one.
abbrev two_files : FileTable
two_files = record {
  table =
      (entry (b'b' ∷ []) ((5 ∷ []) ∷ []) ∷ [])
      ∷ (entry (b'a' ∷ []) ((3 ∷ 5 ∷ []) ∷ (5 ∷ []) ∷ []) ∷ [])
      ∷ [];
  tablesize = 2;
}

abbrev a_entry : FileTableEntry
a_entry = entry (b'a' ∷ []) ((3 ∷ 5 ∷ []) ∷ (5 ∷ []) ∷ [])

two_files-IsValid : IsValid hash equals two_files
unfolding hash hash_pjw
two_files-IsValid = record {
  sized = refl;
  positive = omega arith;
  placed = ((refl, tt), ((refl, tt), tt));
}

a_there : entry_at two_files (b'a' ∷ []) ≡ some a_entry
unfolding entry_at get_element bucket bucket_search hash equals hash_pjw name_eq Spec.find
a_there = refl

hash_pjw-below_example :
    hash_pjw (b'd' ∷ b'/' ∷ b'e' ∷ b'f' ∷ b'g' ∷ b'h' ∷ b'i' ∷ b'j' ∷ b'k' ∷ []) < 268435456
hash_pjw-below_example =
    hash_pjw-below (b'd' ∷ b'/' ∷ b'e' ∷ b'f' ∷ b'g' ∷ b'h' ∷ b'i' ∷ b'j' ∷ b'k' ∷ [])

set_peer_lem_example :
    (r : FileTable) × (set_that_peer_has_file_chunk two_files (b'a' ∷ []) 3 1 ≡ some r)
    × (get_peers r (b'a' ∷ []) 1 ≡ some (some (with_peer 3 (5 ∷ []))))
    × ((other : ℕ)
        → other ≢ 1
        → get_peers r (b'a' ∷ []) other ≡ get_peers two_files (b'a' ∷ []) other)
    × ((other : Name) → other ≢ (b'a' ∷ []) → entry_at r other ≡ entry_at two_files other)
set_peer_lem_example =
    set_peer_lem two_files (b'a' ∷ []) 3 1 a_entry (5 ∷ []) two_files-IsValid a_there refl

remove_peer_lem_example :
    (qs : List ℕ) × (get_peers (remove_peer two_files 5) (b'a' ∷ []) 0 ≡ some (some qs))
    × ((p : ℕ) → lists p qs ≡ (lists p (3 ∷ 5 ∷ []) && not (p == 5)))
    × ((other : Name)
        → chunk_count (entry_at (remove_peer two_files 5) other)
          ≡ chunk_count (entry_at two_files other))
remove_peer_lem_example =
    remove_peer_lem two_files 5 (b'a' ∷ []) a_entry 0 (3 ∷ 5 ∷ []) a_there refl

-- Numbers printed as that many times `1`.
abbrev count_ones : List ℕ → ℕ
count_ones [] = 0
count_ones (b ∷ bs) = if b == 49 then suc (count_ones bs) else 0

ones-NoNull : (n : ℕ) → NoNull (replicate n 49)
ones-NoNull zero = tt
ones-NoNull (suc n) = (omega arith, ones-NoNull n)

count_ones-replicate : (n : ℕ) (rest : List ℕ) → count_ones (replicate n 49 ++ (0 ∷ rest)) ≡ n
count_ones-replicate zero rest = refl
count_ones-replicate (suc n) rest = ap suc (count_ones-replicate n rest)

abbrev unary_io : Stdio
unary_io = record {
  sprintf = λ n. replicate n 49;
  sscanf = λ bs. some (count_ones bs, count_ones bs);
  sprintf_NoNull = ones-NoNull;
  sscanf-sprintf = λ n rest. rw (count_ones-replicate n rest, length-replicate {A = ℕ} n 49) refl;
}

short : length (elements two_files) < 3
unfolding elements
short = omega arith

two_files-ArePaths : ArePaths (elements two_files)
unfolding elements
two_files-ArePaths = ((omega arith, tt), ((omega arith, tt), tt))

deserialize-serialize_table_example :
    (r : FileTable) × (deserialize unary_io (serialize unary_io 3 two_files ++ (9 ∷ []))
      ≡ some (r, length (serialize unary_io 3 two_files)))
    × IsValid hash equals r
    × ((path : Name) → entry_at r path ≡ map_option stored (entry_at two_files path))
deserialize-serialize_table_example =
    deserialize-serialize_table unary_io 3 two_files (9 ∷ []) two_files-IsValid two_files-ArePaths
      short
