-- ===== src/PeerTable/Codec.antt =====
-- common/peer_table.c: a table as bytes for the clients, and back. An id is four bytes, the lowest
-- first.
use seven_deadly_syns.Prelude.{
  ℕ, zero, suc, ◌+◌, ◌*◌, ◌/◌, ◌%◌, ◌==◌, if◌then◌else◌, none, List, [], ◌∷◌, ◌++◌, length, take,
  drop, get_or,
}
use seven_deadly_syns.PeerTable.{
  Peer, Slot, uninit, null, peer, Table, init, Outcome, fault, absent, found, copy_peer,
}

-- `memcpy(ptr, &id, sizeof(int))`.
unfoldable pub int_bytes : ℕ → List ℕ
int_bytes n = n % 256 ∷ n / 256 % 256 ∷ n / 65536 % 256 ∷ n / 16777216 % 256 ∷ []

-- `*(int *)ptr` on four bytes.
unfoldable pub read_int : List ℕ → ℕ
read_int b = get_or b 0 0 + get_or b 1 0 * 256 + get_or b 2 0 * 65536 + get_or b 3 0 * 16777216

-- `sizeof(int) + IP_LEN`.
abbrev pub client_size : ℕ
client_size = 8

-- The bytes of one peer.
unfoldable pub client_bytes : Peer → List ℕ
unfolding int_bytes
client_bytes p = int_bytes p.id ++ p.ip_addr

abbrev pub prepend : List ℕ → Outcome (List ℕ) → Outcome (List ℕ)
prepend bytes fault = fault
prepend bytes absent = absent
prepend bytes (found more) = found (bytes ++ more)

-- The loop of serialize_peer_table over `n` slots, with a buffer for `room` more peers: a peer
-- behind its end is written out of bounds.
unfoldable pub serialize_slots : ℕ → ℕ → List Slot → Outcome (List ℕ)
unfolding client_bytes
serialize_slots zero room slots = found []
serialize_slots (suc n) room [] = fault
serialize_slots (suc n) room (uninit ∷ slots) = fault
serialize_slots (suc n) room (null ∷ slots) = serialize_slots n room slots
serialize_slots (suc n) zero (peer p ∷ slots) = fault
serialize_slots (suc n) (suc room) (peer p ∷ slots) =
    prepend (client_bytes p) (serialize_slots n room slots)

-- serialize_peer_table: NULL, with the length 0, for a table that counts no peer.
unfoldable pub serialize_peer_table : Table → Outcome (List ℕ)
unfolding serialize_slots
serialize_peer_table t = if t.count == 0 then absent else serialize_slots t.size t.count t.peer_list

-- The loop of deserialize_peer_table: copy_peer counts the peer, and the loop counts it again.
unfoldable pub read_peers : ℕ → Table → List ℕ → Outcome Table
unfolding copy_peer read_int
read_peers zero t buffer = found t
read_peers (suc n) t buffer =
    elim (copy_peer t (read_int (take 4 buffer)) (take 4 (drop 4 buffer)) none) [
      | fault ↦ fault
      | absent ↦ fault
      | found (entry, u) ↦ read_peers n (record u { count = u.count + 1 }) (drop client_size buffer)
    ]

-- deserialize_peer_table on a buffer of the given length; init_peer_table gives NULL for the size 0,
-- but then the loop reads nothing.
unfoldable pub deserialize_peer_table : List ℕ → Outcome Table
unfolding read_peers init
deserialize_peer_table buffer =
    if length buffer == 0
    then found (init 10)
    else if length buffer / client_size == 0
    then absent
    else read_peers (length buffer / client_size) (init (length buffer / client_size * 2)) buffer
