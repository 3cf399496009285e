-- ===== src/FileTable/Reading.antt =====
-- The loop of filetable_deserialize on each part of what filetable_serialize writes.
use mathlib.Core.List.{append-nil, append_assoc}
use seven_deadly_syns.Prelude.{
  ℕ, zero, suc, ◌+◌, ◌≤◌, ◌≡◌, refl, sym, ap, ◌∙◌, Option, none, some, List, [], ◌∷◌, ◌++◌, length,
  length-append, arith,
}
use seven_deadly_syns.FileSystem.Serial.{NoNull, push_string}
use seven_deadly_syns.FileSystem.Serial.RoundTrip.{read_string_lem, drop-string, push_string-append}
use seven_deadly_syns.HashTable.{
  HashTable, initial_table_size, bucket, bucket_search, get_element, add,
}
use seven_deadly_syns.HashTable
use seven_deadly_syns.FileTable.{FileTableEntry, FileTable, hash, equals, search}
use seven_deadly_syns.FileTable.Codec.{
  Stdio, Reader, goes, start_table, start_entry, start_chunk, start_id, end_chunk, end_entry,
  serialize_ids, serialize_chunks, serialize_entries, read_path, read_id, close_chunk, close_entry,
  round, read,
}

-- What of an entry is written.
abbrev pub stored : FileTableEntry → FileTableEntry
stored e = record (search e.path) { chunks = e.chunks }

-- A hash table with the written parts of these entries added in order.
unfoldable pub add_all : List FileTableEntry → FileTable → FileTable
add_all [] ft = ft
add_all (e ∷ es) ft = add_all es (add hash equals ft (stored e))

-- Every path is a C string.
abbrev pub ArePaths : List FileTableEntry → Type 0
ArePaths [] = Unit {0}
ArePaths (e ∷ es) = NoNull e.path × ArePaths es

abbrev pub reader : Option FileTable → Option FileTableEntry → Option (List ℕ) → Reader
reader d e c = record { deser = d; entry = e; chunk = c }

module _ (io : Stdio) where
  pub step :
      (fuel b : ℕ) (st st' : Reader) (bs rest : List ℕ)
      → round io st b bs ≡ goes st' rest
      → read io (suc fuel) st (b ∷ bs) ≡ read io fuel st' rest
  unfolding read
  step fuel b st st' bs rest e = rw (e, read) refl

  -- The rounds, by their marker.
  pub round-table :
      (st : Reader) (bs : List ℕ)
      → round io st start_table bs ≡ goes (reader (some HashTable.new) st.entry st.chunk) bs
  unfolding round
  round-table st bs = refl

  round-entry :
      (d : Option FileTable) (path rest : List ℕ)
      → NoNull path
      → round io (reader d none none) start_entry (push_string path ++ rest)
        ≡ goes (reader d (some (search path)) none) rest
  unfolding round read_path
  round-entry d path rest h =
      rw (push_string-append path rest) (rw (read_string_lem path rest h, round, read_path) refl)

  round-chunk :
      (d : Option FileTable) (e : Option FileTableEntry) (bs : List ℕ)
      → round io (reader d e none) start_chunk bs ≡ goes (reader d e (some [])) bs
  unfolding round
  round-chunk d e bs = refl

  round-id :
      (d : Option FileTable) (e : Option FileTableEntry) (ps : List ℕ) (p : ℕ) (rest : List ℕ)
      → round io (reader d e (some ps)) start_id (push_string (io.sprintf p) ++ rest)
        ≡ goes (reader d e (some (ps ++ (p ∷ [])))) rest
  unfolding round read_id
  round-id d e ps p rest = rw (push_string-append (io.sprintf p) rest) (
      rw (io.sscanf-sprintf p rest, round, read_id)
        (ap (goes (reader d e (some (ps ++ (p ∷ []))))) (drop-string (io.sprintf p) rest)))

  round-end_chunk :
      (d : Option FileTable) (e : FileTableEntry) (ps bs : List ℕ)
      → round io (reader d (some e) (some ps)) end_chunk bs
        ≡ goes (reader d (some (record e { chunks = e.chunks ++ (ps ∷ []) })) none) bs
  unfolding round close_chunk
  round-end_chunk d e ps bs = refl

  round-end_entry :
      (ft : FileTable) (e : FileTableEntry) (bs : List ℕ)
      → round io (reader (some ft) (some e) none) end_entry bs
        ≡ goes (reader (some (add hash equals ft e)) none none) bs
  unfolding round close_entry
  round-end_entry ft e bs = refl

  -- The loop on a written part, with at least `k` rounds of the fuel left for what follows.
  pub record Reads (k fuel : ℕ) (st st' : Reader) (bs rest : List ℕ) : Type 0 where
    pub left : ℕ
    pub enough : k ≤ left
    pub same : read io fuel st bs ≡ read io left st' rest

  prepend :
      {k fuel : ℕ} {st0 st1 st2 : Reader} {bs cs rest : List ℕ}
      → read io (suc fuel) st0 bs ≡ read io fuel st1 cs
      → Reads k fuel st1 st2 cs rest
      → Reads k (suc fuel) st0 st2 bs rest
  prepend e r = record { left = r.left; enough = r.enough; same = e ∙ r.same }

  at_bytes :
      {k fuel : ℕ} {st st' : Reader} {bs cs rest : List ℕ}
      → bs ≡ cs
      → Reads k fuel st st' cs rest
      → Reads k fuel st st' bs rest
  at_bytes {fuel = fuel} {st = st} e r = record {
    left = r.left;
    enough = r.enough;
    same = ap (read io fuel st) e ∙ r.same;
  }

  after_step :
      {j k : ℕ} {st0 st1 st2 : Reader} {bs cs rest : List ℕ} (left : ℕ)
      → suc j ≤ left
      → ((fuel : ℕ) → read io (suc fuel) st0 bs ≡ read io fuel st1 cs)
      → ((fuel : ℕ) → j ≤ fuel → Reads k fuel st1 st2 cs rest)
      → Reads k left st0 st2 bs rest
  after_step zero h e r = absurd (omega arith)
  after_step (suc fuel) h e r = prepend (e fuel) (r fuel (omega arith))

  read_ids :
      (ps : List ℕ) (k fuel : ℕ) (d : Option FileTable) (e : Option FileTableEntry)
      (qs rest : List ℕ)
      → length (serialize_ids io ps) + k ≤ fuel
      → Reads k fuel
          (reader d e (some qs))
          (reader d e (some (qs ++ ps)))
          (serialize_ids io ps ++ rest)
          rest
  unfolding serialize_ids
  read_ids [] k fuel d e qs rest room = record {
    left = fuel;
    enough = omega arith;
    same = ap (λ xs. read io fuel (reader d e (some xs)) rest) (sym (append-nil qs));
  }
  read_ids (p ∷ ps) k zero d e qs rest room = absurd (omega arith)
  read_ids (p ∷ ps) k (suc fuel) d e qs rest room =
      let id = push_string (io.sprintf p) in
      let more = serialize_ids io ps in
      let r = read_ids ps k fuel d e (qs ++ (p ∷ [])) rest (omega (arith, length-append id more)) in
      at_bytes (ap (◌∷◌ start_id) (append_assoc id more rest)) (
        prepend (step fuel start_id _ _ _ _ (round-id d e qs p (more ++ rest))) (record {
          left = r.left;
          enough = r.enough;
          same =
              r.same
              ∙ ap (λ xs. read io r.left (reader d e (some xs)) rest) (append_assoc qs (p ∷ []) ps);
        }))

  chain :
      {j k fuel : ℕ} {st0 st1 st2 : Reader} {bs cs rest : List ℕ}
      → (r : Reads j fuel st0 st1 bs cs) → ((left : ℕ) → j ≤ left → Reads k left st1 st2 cs rest)
      → Reads k fuel st0 st2 bs rest
  chain r next =
      let s = next r.left r.enough in
      record { left = s.left; enough = s.enough; same = r.same ∙ s.same }

  read_chunks :
      (cs : List (List ℕ)) (k fuel : ℕ) (d : Option FileTable) (e : FileTableEntry) (rest : List ℕ)
      → length (serialize_chunks io cs) + k ≤ fuel
      → Reads k fuel
          (reader d (some e) none)
          (reader d (some (record e { chunks = e.chunks ++ cs })) none)
          (serialize_chunks io cs ++ rest)
          rest
  unfolding serialize_chunks
  read_chunks [] k fuel d e rest room = record {
    left = fuel;
    enough = omega arith;
    same =
        ap (λ xs. read io fuel (reader d (some (record e { chunks = xs })) none) rest)
          (sym (append-nil e.chunks));
  }
  read_chunks (c ∷ cs) k zero d e rest room = absurd (omega arith)
  read_chunks (c ∷ cs) k (suc fuel) d e rest room =
      let ids = serialize_ids io c in
      let more = serialize_chunks io cs in
      let e' : FileTableEntry = record e { chunks = e.chunks ++ (c ∷ []) } in
      let j = suc (length more + k) in
      at_bytes (ap (◌∷◌ start_chunk) (append_assoc ids (end_chunk ∷ more) rest)) (
        prepend
          (step fuel start_chunk _ _ _ _
            (round-chunk d (some e) (ids ++ (end_chunk ∷ (more ++ rest)))))
          (chain
            (read_ids c j fuel d (some e) [] (end_chunk ∷ (more ++ rest))
              (omega (arith, length-append ids (end_chunk ∷ more))))
            (λ left enough.
              after_step left enough
                (λ f. step f end_chunk _ _ _ _ (round-end_chunk d e c (more ++ rest)))
                (λ f h. chunks_behind e (c ∷ []) cs (read_chunks cs k f d e' rest h)))))
    where
      chunks_behind :
          (e : FileTableEntry) (xs ys : List (List ℕ)) {f : ℕ} {bs : List ℕ}
          → Reads k f
              (reader d (some (record e { chunks = e.chunks ++ xs })) none)
              (reader d (some (record e { chunks = (e.chunks ++ xs) ++ ys })) none)
              bs
              rest
          → Reads k f
              (reader d (some (record e { chunks = e.chunks ++ xs })) none)
              (reader d (some (record e { chunks = e.chunks ++ (xs ++ ys) })) none)
              bs
              rest
      chunks_behind e xs ys r = record {
        left = r.left;
        enough = r.enough;
        same =
            r.same
            ∙ ap (λ zs. read io r.left (reader d (some (record e { chunks = zs })) none) rest)
                (append_assoc e.chunks xs ys);
      }

  pub read_entries :
      (es : List FileTableEntry) (k fuel : ℕ) (ft : FileTable) (rest : List ℕ)
      → ArePaths es
      → length (serialize_entries io es) + k ≤ fuel
      → Reads k fuel
          (reader (some ft) none none)
          (reader (some (add_all es ft)) none none)
          (serialize_entries io es ++ rest)
          rest
  unfolding serialize_entries add_all
  read_entries [] k fuel ft rest h room = record { left = fuel; enough = omega arith; same = refl }
  read_entries (e ∷ es) k zero ft rest h room = absurd (omega arith)
  read_entries (e ∷ es) k (suc fuel) ft rest h room =
      let name = push_string e.path in
      let chunks = serialize_chunks io e.chunks in
      let more = serialize_entries io es in
      let j = suc (length more + k) in
      at_bytes
        (ap (◌∷◌ start_entry) (
          append_assoc name (chunks ++ (end_entry ∷ more)) rest
          ∙ ap (◌++◌ name) (append_assoc chunks (end_entry ∷ more) rest)))
        (prepend
          (step fuel start_entry _ _ _ _
            (round-entry (some ft) e.path (chunks ++ (end_entry ∷ (more ++ rest))) h.0))
          (chain
            (read_chunks e.chunks j fuel (some ft) (search e.path) (end_entry ∷ (more ++ rest)) (
              omega (
                arith,
                length-append name (chunks ++ (end_entry ∷ more)),
                length-append chunks (end_entry ∷ more),
              )))
            (λ left enough.
              after_step left enough
                (λ f. step f end_entry _ _ _ _ (round-end_entry ft (stored e) (more ++ rest)))
                (λ f h'. read_entries es k f (add hash equals ft (stored e)) rest h.1 h'))))
