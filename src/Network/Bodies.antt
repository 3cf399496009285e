-- ===== src/Network/Bodies.antt =====
-- The data of the packets between clients and tracker: what a send_ function writes, the receive_ function
-- on the other side reads.
use seven_deadly_syns.Prelude.{
  ℕ, ◌+◌, ◌-◌, ◌<◌, ◌≤◌, ◌≡◌, refl, sym, ap, ap₂, ◌∙◌, leb, true, if◌then◌else◌, Option, none, some,
  List, [], ◌∷◌, ◌++◌, length, length-append, take, drop, drop-append, arith,
}
use mathlib.Core.List.{append_assoc, append-nil}
use seven_deadly_syns.FileSystem.Types.{Name, FileSystem}
use seven_deadly_syns.FileSystem.Serial.{
  Stdio, NoNull, push_string, read_string, serialize, deserialize,
}
use seven_deadly_syns.FileSystem.Serial.RoundTrip.{IsNamed, deserialize-serialize, read_string_lem}
use seven_deadly_syns.FileSystem.Components.{take_string}
use seven_deadly_syns.PeerTable.Codec.{int_bytes, read_int}
use seven_deadly_syns.PeerTable.Copy.{read_int-int_bytes}

-- send_chunk_got
unfoldable pub send_chunk_got : Name → ℕ → List ℕ
unfolding int_bytes push_string
send_chunk_got path chunk_num = int_bytes chunk_num ++ push_string path

-- receive_client_got, into a buffer of PATH_MAX + 1 bytes that are 0: the path, the number of the chunk.
-- `none` is a write behind the buffer.
unfoldable pub receive_client_got : ℕ → List ℕ → Option (Name × ℕ)
unfolding read_int take_string
receive_client_got path_max buf =
    if leb (length buf - 4) (path_max + 1)
    then some (take_string (drop 4 buf), read_int (take 4 buf))
    else none

-- send_got_chunk_update
unfoldable pub send_got_chunk_update : ℕ → Name → ℕ → List ℕ
unfolding int_bytes push_string
send_got_chunk_update got_id filename chunk_num =
    int_bytes chunk_num ++ (int_bytes got_id ++ push_string filename)

-- receive_chunk_got: the id of the client, the path and the number of the chunk.
unfoldable pub receive_chunk_got : List ℕ → Option (ℕ × Name × ℕ)
unfolding read_int read_string
receive_chunk_got buf = elim (read_string (drop 8 buf)) [
  | none ↦ none
  | some (filename, rest) ↦ some (read_int (take 4 (drop 4 buf)), filename, read_int (take 4 buf))
]

module _ (io : Stdio) where
  -- send_updated_files
  unfoldable pub send_updated_files : FileSystem → FileSystem → List ℕ
  unfolding serialize
  send_updated_files additions deletions = serialize io additions ++ serialize io deletions

  -- receive_client_update
  unfoldable pub receive_client_update : List ℕ → Option (FileSystem × FileSystem)
  unfolding deserialize
  receive_client_update buf = elim (deserialize io buf) [
    | none ↦ none
    | some (additions, additions_length) ↦ elim (deserialize io (drop additions_length buf)) [
      | none ↦ none
      | some (deletions, deletions_length) ↦ some (additions, deletions)
    ]
  ]

  -- send_FS_update
  unfoldable pub send_fs_update : ℕ → FileSystem → FileSystem → List ℕ
  unfolding serialize int_bytes
  send_fs_update originator additions deletions =
      serialize io additions ++ (serialize io deletions ++ int_bytes originator)

  -- recv_diff
  unfoldable pub recv_diff : List ℕ → Option (FileSystem × FileSystem × ℕ)
  unfolding deserialize read_int
  recv_diff buf = elim (deserialize io buf) [
    | none ↦ none
    | some (additions, len1) ↦ elim (deserialize io (drop len1 buf)) [
      | none ↦ none
      | some (deletions, len2) ↦
          some (additions, deletions, read_int (take 4 (drop (len1 + len2) buf)))
    ]
  ]

take_string-null : (s : List ℕ) → NoNull s → take_string (push_string s) ≡ s
unfolding take_string push_string
take_string-null [] h = refl
take_string-null (c ∷ cs) h = ground (arith, take_string-null cs h.1, h.0)

-- The tree of a deserialized file system.
abbrev pub bare_fs : FileSystem → FileSystem
bare_fs fs = record { root_path = none; root = fs.root }

-- receive_client_got reads what send_chunk_got wrote, for a path that fits in its buffer, and
-- receive_chunk_got what send_got_chunk_update wrote. Paths hold no 0, the numbers are those of an int.
pub chunk_got_lem :
    (path_max chunk_num got_id : ℕ) (path : Name)
    → NoNull path
    → length path ≤ path_max
    → chunk_num < 4294967296
    → got_id < 4294967296
    → (receive_client_got path_max (send_chunk_got path chunk_num) ≡ some (path, chunk_num))
      × (receive_chunk_got (send_got_chunk_update got_id path chunk_num)
          ≡ some (got_id, path, chunk_num))
unfolding receive_client_got send_chunk_got receive_chunk_got send_got_chunk_update
chunk_got_lem path_max chunk_num got_id path h fits hc hg = (client, tracker)
  where
    read_chunk : read_int (int_bytes chunk_num) ≡ chunk_num
    read_chunk = read_int-int_bytes chunk_num hc

    room : leb (length (int_bytes chunk_num ++ push_string path) - 4) (path_max + 1) ≡ true
    room = unfold push_string in ground (arith, length-append path (0 ∷ []), fits)

    text : read_string (push_string path) ≡ some (path, [])
    text = unfold push_string in read_string_lem path [] h

    client :
        receive_client_got path_max (int_bytes chunk_num ++ push_string path)
        ≡ some (path, chunk_num)
    client =
        rw (room, receive_client_got)
          (ap₂ (λ p n. some (p, n)) (take_string-null path h) read_chunk)

    tracker :
        receive_chunk_got (int_bytes chunk_num ++ (int_bytes got_id ++ push_string path))
        ≡ some (got_id, path, chunk_num)
    tracker =
        rw (text, receive_chunk_got)
          (ap₂ (λ g c. some (g, path, c)) (read_int-int_bytes got_id hg) read_chunk)

-- receive_client_update reads what send_updated_files wrote, and recv_diff what send_FS_update wrote, with
-- the id of the originator: the same trees, with a root path of NULL. No name holds a 0, the id is that of
-- an int.
pub update_lem :
    (io : Stdio) (additions deletions : FileSystem) (originator : ℕ)
    → IsNamed additions.root
    → IsNamed deletions.root
    → originator < 4294967296
    → (receive_client_update io (send_updated_files io additions deletions)
        ≡ some (bare_fs additions, bare_fs deletions))
      × (recv_diff io (send_fs_update io originator additions deletions)
          ≡ some (bare_fs additions, bare_fs deletions, originator))
unfolding int_bytes receive_client_update recv_diff
update_lem io additions deletions originator ha hd ho = (client, tracker)
  where
    adds : List ℕ
    adds = serialize io additions

    dels : List ℕ
    dels = serialize io deletions

    first : (rest : List ℕ) → deserialize io (adds ++ rest) ≡ some (bare_fs additions, length adds)
    first rest = deserialize-serialize io additions rest ha

    second :
        (rest : List ℕ)
        → deserialize io (drop (length adds) (adds ++ (dels ++ rest)))
          ≡ some (bare_fs deletions, length dels)
    second rest =
        ap (deserialize io) (drop-append adds (dels ++ rest) (length adds) refl)
        ∙ deserialize-serialize io deletions rest hd

    originator_at :
        read_int
          (take 4 (drop (length adds + length dels) (adds ++ (dels ++ int_bytes originator))))
        ≡ originator
    originator_at =
        ap (λ l. read_int (take 4 (drop (length adds + length dels) l)))
          (sym (append_assoc adds dels (int_bytes originator)))
        ∙ ap (λ l. read_int (take 4 l))
            (drop-append (adds ++ dels) (int_bytes originator) (length adds + length dels)
              (length-append adds dels))
        ∙ read_int-int_bytes originator ho

    client :
        receive_client_update io (send_updated_files io additions deletions)
        ≡ some (bare_fs additions, bare_fs deletions)
    client =
        unfold send_updated_files in
        rw (first dels, receive_client_update)
          (rw
            (
              ap (λ l. deserialize io (drop (length adds) (adds ++ l))) (sym (append-nil dels))
                  ∙ second [],
              receive_client_update,
            )
            refl)

    tracker :
        recv_diff io (send_fs_update io originator additions deletions)
        ≡ some (bare_fs additions, bare_fs deletions, originator)
    tracker =
        unfold send_fs_update in
        rw (first (dels ++ int_bytes originator), recv_diff)
          (rw (second (int_bytes originator), recv_diff)
            (ap (λ n. some (bare_fs additions, bare_fs deletions, n)) originator_at))
