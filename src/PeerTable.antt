-- ===== src/PeerTable.antt =====
-- common/peer_table.c: the table of the connected peers. An address is a list of IP_LEN bytes,
-- socket numbers are integers, ids are numbers. calloc and realloc do not fail.
pub mod Lookup
pub mod Add
pub mod Codec
pub mod Copy
pub mod Diff
mod Tests
use seven_deadly_syns.Prelude.{
  ℕ, zero, suc, ◌+◌, ◌-◌, ◌*◌, ◌/◌, Bool, true, false, ◌&&◌, ◌==◌, ltb, if◌then◌else◌, Option, none,
  some, List, [], ◌∷◌, ◌++◌, set, length, replicate,
}

-- `peer_t`; `socketfd` is none for -1.
pub record Peer : Type 0 where
  pub ip_addr : List ℕ
  pub socketfd : Option ℕ
  pub id : ℕ
  pub time_last_alive : ℕ

-- One `peer_t *` of `peer_list`: realloc leaves what it adds uninitialised.
pub data Slot : Type 0 where
  uninit : Slot
  null : Slot
  peer : Peer → Slot

-- `peer_table_t`.
pub record Table : Type 0 where
  pub peer_list : List Slot
  pub count : ℕ
  pub size : ℕ
  pub id_counter : ℕ

-- init_peer_table at a size above 0.
unfoldable pub init : ℕ → Table
init size = record { peer_list = replicate size null; count = 0; size = size; id_counter = 1 }

-- What a loop over the slots gives: it can read a pointer that was never written.
pub data Outcome (A : Type 0) : Type 0 where
  fault : Outcome A
  absent : Outcome A
  found : A → Outcome A

-- The index of the first free slot among the first `n` of the list, from index `i` on.
unfoldable pub first_free : ℕ → List Slot → ℕ → Outcome ℕ
first_free zero slots i = absent
first_free (suc n) [] i = fault
first_free (suc n) (uninit ∷ slots) i = fault
first_free (suc n) (null ∷ slots) i = found i
first_free (suc n) (peer p ∷ slots) i = first_free n slots (i + 1)

-- `if (table->count == table->size)`: twice the slots, the new ones uninitialised.
unfoldable pub grow : Table → Table
grow t =
    if t.count == t.size
    then record t { size = t.size * 2; peer_list = t.peer_list ++ replicate t.size uninit }
    else t

-- add_peer: the entry that it returns, and the table.
unfoldable pub add_peer : Table → List ℕ → Option ℕ → ℕ → Outcome (Option Peer × Table)
unfolding first_free grow
add_peer t ip fd now = elim (first_free t.size t.peer_list 0) [
  | fault ↦ fault
  | absent ↦ found (none, grow t)
  | found i ↦
      (let entry : Peer = record {
        ip_addr = ip;
        socketfd = fd;
        id = t.id_counter;
        time_last_alive = now;
      } in
        found (
          some entry,
          grow (record t {
            peer_list = set t.peer_list i (peer entry);
            id_counter = t.id_counter + 1;
            count = t.count + 1;
          }),
        ))
]

-- copy_peer, on the side of the client.
unfoldable pub copy_peer : Table → ℕ → List ℕ → Option ℕ → Outcome (Option Peer × Table)
unfolding first_free grow
copy_peer t id ip fd = elim (first_free t.size t.peer_list 0) [
  | fault ↦ fault
  | absent ↦ found (none, t)
  | found i ↦
      (let entry : Peer = record { ip_addr = ip; socketfd = fd; id = id; time_last_alive = 0 } in
        found (
          some entry,
          grow (record t { peer_list = set t.peer_list i (peer entry); count = t.count + 1 }),
        ))
]

-- The first peer among the first `n` slots that the test accepts.
unfoldable pub find_slot : (Peer → Bool) → ℕ → List Slot → ℕ → Outcome ℕ
find_slot test zero slots i = absent
find_slot test (suc n) [] i = fault
find_slot test (suc n) (uninit ∷ slots) i = fault
find_slot test (suc n) (null ∷ slots) i = find_slot test n slots (i + 1)
find_slot test (suc n) (peer p ∷ slots) i =
    let rest = find_slot test n slots (i + 1) in if test p then found i else rest

unfoldable pub find_peer : (Peer → Bool) → ℕ → List Slot → Outcome Peer
find_peer test zero slots = absent
find_peer test (suc n) [] = fault
find_peer test (suc n) (uninit ∷ slots) = fault
find_peer test (suc n) (null ∷ slots) = find_peer test n slots
find_peer test (suc n) (peer p ∷ slots) =
    let rest = find_peer test n slots in if test p then found p else rest

unfoldable pub get_peer_by_id : Table → ℕ → Outcome Peer
unfolding find_peer
get_peer_by_id t id = if ltb id 1 then absent else find_peer (λ p. p.id == id) t.size t.peer_list

-- Is the socket the open socket `fd`?
unfoldable pub is_socket : ℕ → Option ℕ → Bool
is_socket fd none = false
is_socket fd (some n) = n == fd

-- get_peer_by_socket; none stands for a negative number.
unfoldable pub get_peer_by_socket : Table → Option ℕ → Outcome Peer
unfolding find_peer is_socket
get_peer_by_socket t none = absent
get_peer_by_socket t (some fd) = find_peer (λ p. is_socket fd p.socketfd) t.size t.peer_list

-- `memcmp(ip_addr, ip, IP_LEN) == 0` on two addresses of IP_LEN bytes.
unfoldable pub same_bytes : List ℕ → List ℕ → Bool
same_bytes [] [] = true
same_bytes [] (y ∷ ys) = false
same_bytes (x ∷ xs) [] = false
same_bytes (x ∷ xs) (y ∷ ys) = (x == y) && same_bytes xs ys

unfoldable pub get_peer_by_ip : Table → List ℕ → Outcome Peer
unfolding find_peer same_bytes
get_peer_by_ip t ip = find_peer (λ p. same_bytes p.ip_addr ip) t.size t.peer_list

-- delete_peer: the count falls and the slot is NULL again, if the id is there.
unfoldable pub delete_peer : Table → ℕ → Outcome Table
unfolding find_slot
delete_peer t id = elim (find_slot (λ p. p.id == id) t.size t.peer_list 0) [
  | fault ↦ fault
  | absent ↦ found t
  | found i ↦ found (record t { peer_list = set t.peer_list i null; count = t.count - 1 })
]
