-- ===== src/FileTable/Codec.antt =====
-- filetable_serialize and filetable_deserialize. A `char` is its value as `unsigned char`. sprintf and
-- sscanf are a parameter.
use seven_deadly_syns.Prelude.{
  ℕ, zero, suc, ◌+◌, ◌-◌, ◌≡◌, ◌==◌, if◌then◌else◌, Option, none, some, List, [], ◌∷◌, ◌++◌, drop,
  length,
}
use seven_deadly_syns.FileSystem.Serial.{NoNull, push_string, read_string}
use seven_deadly_syns.HashTable.{HashTable, add}
use seven_deadly_syns.HashTable
use seven_deadly_syns.HashTable.Iterate.{iterate}
use seven_deadly_syns.FileTable.{FileTableEntry, FileTable, hash, equals, search}

-- START_TABLE, START_ENTRY, START_CHUNK, START_ID, END_CHUNK, END_ENTRY and END_TABLE
abbrev pub start_table : ℕ
start_table = 0xFF

abbrev pub start_entry : ℕ
start_entry = 0xFE

abbrev pub start_chunk : ℕ
start_chunk = 0xFC

abbrev pub start_id : ℕ
start_id = 0xFB

abbrev pub end_chunk : ℕ
end_chunk = 0xFA

abbrev pub end_entry : ℕ
end_entry = 0xF8

abbrev pub end_table : ℕ
end_table = 0xF7

-- `sprintf(buf, "%d", peer)`, and `sscanf(…, "%d%n", …)` with the count of the bytes read. What is
-- printed is read back whole, up to the terminator behind it.
pub record Stdio : Type 0 where
  pub sprintf : ℕ → List ℕ
  pub sscanf : List ℕ → Option (ℕ × ℕ)
  pub sprintf_NoNull : (n : ℕ) → NoNull (sprintf n)
  pub sscanf-sprintf :
      (n : ℕ) (rest : List ℕ) → sscanf (sprintf n ++ (0 ∷ rest)) ≡ some (n, length (sprintf n))

-- The table, the entry and the chunk that filetable_deserialize works on. After its end marker a chunk
-- or an entry is not written any more: data that does so gives `none`.
pub record Reader : Type 0 where
  pub deser : Option FileTable
  pub entry : Option FileTableEntry
  pub chunk : Option (List ℕ)

-- What one round of the loop comes to.
pub data Round : Type 0 where
  fails : Round
  returns : FileTable → List ℕ → Round
  goes : Reader → List ℕ → Round

module _ (io : Stdio) where
  unfoldable pub serialize_ids : List ℕ → List ℕ
  unfolding push_string
  serialize_ids [] = []
  serialize_ids (p ∷ ps) = start_id ∷ (push_string (io.sprintf p) ++ serialize_ids ps)

  unfoldable pub serialize_chunks : List (List ℕ) → List ℕ
  unfolding serialize_ids
  serialize_chunks [] = []
  serialize_chunks (c ∷ cs) = start_chunk ∷ (serialize_ids c ++ (end_chunk ∷ serialize_chunks cs))

  unfoldable pub serialize_entries : List FileTableEntry → List ℕ
  unfolding serialize_chunks push_string
  serialize_entries [] = []
  serialize_entries (e ∷ es) =
      start_entry
      ∷ (push_string e.path ++ (serialize_chunks e.chunks ++ (end_entry ∷ serialize_entries es)))

  -- filetable_serialize; `fuel` bounds the calls of the iterator.
  unfoldable pub serialize : ℕ → FileTable → List ℕ
  unfolding serialize_entries iterate
  serialize fuel ft = start_table ∷ (serialize_entries (iterate fuel ft) ++ (end_table ∷ []))

  unfoldable pub read_path : Reader → List ℕ → Round
  unfolding read_string
  read_path st bs = elim (read_string bs) [
    | none ↦ fails
    | some (path, rest) ↦ goes (record st { entry = some (search path) }) rest
  ]

  unfoldable pub read_id : Reader → List ℕ → Round
  read_id st bs = elim (io.sscanf bs) [
    | none ↦ fails
    | some (peer, num_read) ↦ elim (st.chunk) [
      | none ↦ fails
      | some ps ↦ goes (record st { chunk = some (ps ++ (peer ∷ [])) }) (drop (num_read + 1) bs)
    ]
  ]

  unfoldable pub close_chunk : Reader → List ℕ → Round
  close_chunk st bs = elim (st.entry) [
    | none ↦ fails
    | some e ↦ elim (st.chunk) [
      | none ↦ fails
      | some ps ↦
          goes
            (record st { entry = some (record e { chunks = e.chunks ++ (ps ∷ []) }); chunk = none })
            bs
    ]
  ]

  unfoldable pub close_entry : Reader → List ℕ → Round
  unfolding add hash equals
  close_entry st bs = elim (st.deser) [
    | none ↦ fails
    | some ft ↦ elim (st.entry) [
      | none ↦ fails
      | some e ↦ goes (record st { deser = some (add hash equals ft e); entry = none }) bs
    ]
  ]

  unfoldable pub close_table : Reader → List ℕ → Round
  close_table st bs = elim (st.deser) [ none ↦ fails | some ft ↦ returns ft bs ]

  -- The switch, on a byte and what follows it.
  unfoldable pub round : Reader → ℕ → List ℕ → Round
  unfolding HashTable.new read_path read_id close_chunk close_entry close_table
  round st b bs =
      if b == start_table
      then goes (record st { deser = some HashTable.new }) bs
      else if b == start_entry
      then read_path st bs
      else if b == start_chunk
      then goes (record st { chunk = some [] }) bs
      else if b == start_id
      then read_id st bs
      else if b == end_chunk
      then close_chunk st bs
      else if b == end_entry
      then close_entry st bs
      else if b == end_table
      then close_table st bs
      else fails

  -- `while (1)`: at most `fuel` rounds.
  unfoldable pub read : ℕ → Reader → List ℕ → Option (FileTable × List ℕ)
  unfolding round
  read zero st bs = none
  read (suc fuel) st [] = none
  read (suc fuel) st (b ∷ bs) = elim (round st b bs) [
    | fails ↦ none
    | returns ft rest ↦ some (ft, rest)
    | goes st' rest ↦ read fuel st' rest
  ]

  unfoldable pub read_start : List ℕ → Option (FileTable × List ℕ)
  unfolding read
  read_start [] = none
  read_start (b ∷ bs) =
      if b == start_table
      then read (suc (length bs)) (record { deser = none; entry = none; chunk = none }) (b ∷ bs)
      else none

  -- filetable_deserialize, with the number of the bytes read.
  unfoldable pub deserialize : List ℕ → Option (FileTable × ℕ)
  unfolding read_start
  deserialize data_in = elim (read_start data_in) [
    | none ↦ none
    | some (ft, rest) ↦ some (ft, length data_in - length rest)
  ]
