-- ===== src/FileTable/RoundTrip.antt =====
-- What filetable_serialize writes, filetable_deserialize reads back.
use mathlib.Core.List.{append_assoc}
use seven_deadly_syns.Prelude.{
  ℕ, zero, suc, ◌-◌, ◌%◌, replicate, get_or, if◌then◌else◌, Bool-cases, inl, inr, ◌≤◌, ◌<◌, ◌≡◌,
  refl, sym, ap, ◌∙◌, Option, none, some, List, [], ◌∷◌, ◌++◌, length, length-append, arith,
}
use seven_deadly_syns.FileSystem.Types.{Name}
use seven_deadly_syns.Queue.Spec
use seven_deadly_syns.HashTable.{
  HashTable, initial_table_size, bucket, bucket_search, get_element, add,
}
use seven_deadly_syns.HashTable
use seven_deadly_syns.HashTable.Buckets.{or_else}
use seven_deadly_syns.HashTable.Lookup.{
  elements, IsValid, hash_table_lem, new-IsValid, or_else-none,
}
use seven_deadly_syns.HashTable.Iterate.{iterate-elements}
use seven_deadly_syns.FileTable.{FileTableEntry, FileTable, hash, equals, search, entry_at}
use seven_deadly_syns.FileTable.Peers.{map_option, looks_for, looks_for-path}
use seven_deadly_syns.FileTable.Codec.{
  Stdio, start_table, end_table, serialize_entries, close_table, round, read, read_start, serialize,
  deserialize,
}
use seven_deadly_syns.FileTable.Reading.{
  ArePaths, add_all, read_entries, reader, round-table, step, stored,
}

module _ (io : Stdio) where
  read-end :
      (left : ℕ) (ft : FileTable) (rest : List ℕ)
      → 1 ≤ left
      → read io left (reader (some ft) none none) (end_table ∷ rest) ≡ some (ft, rest)
  unfolding read round close_table
  read-end zero ft rest h = absurd (omega arith)
  read-end (suc fuel) ft rest h = refl

  -- The bytes of a table with these entries.
  abbrev table_bytes : List FileTableEntry → List ℕ
  table_bytes es = start_table ∷ (serialize_entries io es ++ (end_table ∷ []))

  read_start-table :
      (es : List FileTableEntry) (rest : List ℕ)
      → ArePaths es
      → read_start io (table_bytes es ++ rest) ≡ some (add_all es HashTable.new, rest)
  unfolding read_start
  read_start-table es rest h =
      let bytes = serialize_entries io es in
      let tail = (bytes ++ (end_table ∷ [])) ++ rest in
      let regroup : tail ≡ bytes ++ (end_table ∷ rest) = append_assoc bytes (end_table ∷ []) rest in
      let r =
        read_entries io es 1 (length tail) HashTable.new (end_table ∷ rest) h
          (omega (arith, ap length regroup, length-append bytes (end_table ∷ rest))) in
      step io (length tail) start_table (reader none none none)
        (reader (some HashTable.new) none none) tail tail
        (round-table io (reader none none none) tail)
      ∙ ap (read io (length tail) (reader (some HashTable.new) none none)) regroup
      ∙ r.same
      ∙ read-end r.left (add_all es HashTable.new) rest r.enough

  deserialize-table :
      (es : List FileTableEntry) (rest : List ℕ)
      → ArePaths es
      → deserialize io (table_bytes es ++ rest)
        ≡ some (add_all es HashTable.new, length (table_bytes es))
  unfolding deserialize
  deserialize-table es rest h =
      let bytes = table_bytes es in
      let count : length (bytes ++ rest) - length rest ≡ length bytes =
        omega (arith, length-append bytes rest) in
      rw (read_start-table es rest h, deserialize)
        (ap (λ n. some (add_all es HashTable.new, n)) count)

-- What is found in a table to which entries are added.
find-add_all :
    (es : List FileTableEntry) (t : FileTable) (path : Name)
    → IsValid hash equals t
    → entry_at (add_all es t) path
      ≡ or_else (entry_at t path) (map_option stored (Spec.find (looks_for path) es))
unfolding add_all Spec.find entry_at
find-add_all [] t path v = sym (or_else-none hash equals (get_element hash equals t (search path)))
find-add_all (e ∷ es) t path v =
    let (_, _, _, _, _, found, valid) = hash_table_lem hash equals t (stored e) v in
    find-add_all es (add hash equals t (stored e)) path valid
    ∙ ap (λ o. or_else o (map_option stored (Spec.find (looks_for path) es))) (found (search path))
    ∙ first (get_element hash equals t (search path))
  where
    looks_for-stored : looks_for path (stored e) ≡ looks_for path e
    looks_for-stored = looks_for-path path (stored e) ∙ sym (looks_for-path path e)

    first :
        (o : Option FileTableEntry)
        → or_else
            (or_else o (if looks_for path (stored e) then some (stored e) else none))
            (map_option stored (Spec.find (looks_for path) es))
          ≡ or_else o (
              map_option stored
                (if looks_for path e then some e else Spec.find (looks_for path) es))
    first none = elim (Bool-cases (looks_for path e)) [
      | inl hit ↦ rw (looks_for-stored, hit) refl
      | inr miss ↦ rw (looks_for-stored, miss) refl
    ]
    first (some x) = refl

add_all-IsValid :
    (es : List FileTableEntry) (t : FileTable)
    → IsValid hash equals t
    → IsValid hash equals (add_all es t)
unfolding add_all
add_all-IsValid [] t v = v
add_all-IsValid (e ∷ es) t v =
    let (_, _, _, _, _, _, valid) = hash_table_lem hash equals t (stored e) v in
    add_all-IsValid es (add hash equals t (stored e)) valid

abbrev nothing : List FileTableEntry
nothing = []

empty-entry_at :
    (m : ℕ) (path : Name) → entry_at (record { table = replicate m []; tablesize = m }) path ≡ none
unfolding entry_at get_element bucket
empty-entry_at m path =
    ap (Spec.find (looks_for path)) (empty_bucket m (hash (search path) % m))
    ∙ unfold Spec.find in refl
  where
    empty_bucket : (n i : ℕ) → get_or (replicate n nothing) i nothing ≡ nothing
    empty_bucket zero i = refl
    empty_bucket (suc n) zero = refl
    empty_bucket (suc n) (suc i) = empty_bucket n i

-- What filetable_serialize writes of a table whose paths are C strings, filetable_deserialize reads back
-- up to its last byte, whatever follows: no assert fails, and the table that it builds has for each path
-- an entry exactly if the first one has, with the same path and the same peers for the same chunks, no
-- ChunkyFile and empty queues.
pub deserialize-serialize_table :
    (io : Stdio) (fuel : ℕ) (ft : FileTable) (rest : List ℕ)
    → IsValid hash equals ft
    → ArePaths (elements ft)
    → length (elements ft) < fuel
    → (r : FileTable) × (deserialize io (serialize io fuel ft ++ rest)
        ≡ some (r, length (serialize io fuel ft)))
      × IsValid hash equals r
      × ((path : Name) → entry_at r path ≡ map_option stored (entry_at ft path))
unfolding serialize
deserialize-serialize_table io fuel ft rest v paths enough =
    let es = elements ft in
    let all = iterate-elements fuel ft enough in
    (
      add_all es HashTable.new,
      rw all (deserialize-table io es rest paths),
      add_all-IsValid es HashTable.new fresh-IsValid,
      λ path.
          find-add_all es HashTable.new path fresh-IsValid
          ∙ ap (λ o. or_else o (map_option stored (Spec.find (looks_for path) es)))
              (fresh-entry_at path)
          ∙ ap (map_option stored) (sym (found path)),
    )
  where
    fresh-IsValid : IsValid hash equals HashTable.new
    fresh-IsValid = unfold HashTable.new in new-IsValid hash equals initial_table_size (omega arith)

    fresh-entry_at : (path : Name) → entry_at HashTable.new path ≡ none
    fresh-entry_at path = unfold HashTable.new in empty-entry_at initial_table_size path

    found : (path : Name) → entry_at ft path ≡ Spec.find (looks_for path) (elements ft)
    found path =
        let (f, _, _, _, _, _, _) = hash_table_lem hash equals ft (search path) v in
        unfold entry_at in f
