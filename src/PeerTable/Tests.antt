-- ===== src/PeerTable/Tests.antt =====
-- The theorems of PeerTable at concrete tables.
use mathlib.Core.List.{Perm}
use seven_deadly_syns.Prelude.{
  get_elem?, ℕ, ◌+◌, ◌*◌, ◌≡◌, refl, ◌==◌, some, List, [], ◌∷◌, map, arith,
}
use seven_deadly_syns.Queue.Spec
use seven_deadly_syns.PeerTable.{
  Peer, null, peer, Table, fault, found, add_peer, get_peer_by_socket, delete_peer,
}
use seven_deadly_syns.PeerTable.Lookup.{peers, IsValid, IsKept, delete_peer_lem}
use seven_deadly_syns.PeerTable.Add.{entry, add_peer_lem, add_peer_fault}
use seven_deadly_syns.PeerTable.Codec.{serialize_peer_table, deserialize_peer_table}
use seven_deadly_syns.PeerTable.Copy.{client_copy, deserialize-serialize_peer_table}

abbrev ada : Peer
ada = record { ip_addr = 10 ∷ 0 ∷ 0 ∷ 1 ∷ []; socketfd = some 5; id = 1; time_last_alive = 100 }

abbrev bob : Peer
bob = record { ip_addr = 10 ∷ 0 ∷ 0 ∷ 2 ∷ []; socketfd = some 6; id = 2; time_last_alive = 200 }

abbrev two_peers : Table
two_peers = record {
  peer_list = peer ada ∷ null ∷ peer bob ∷ null ∷ [];
  count = 2;
  size = 4;
  id_counter = 3;
}

two_peers-IsValid : IsValid two_peers
unfolding peers
two_peers-IsValid = record { sized = refl; written = tt; counted = refl }

by_socket : get_peer_by_socket two_peers (some 6) ≡ found bob
unfolding get_peer_by_socket
by_socket = refl

delete_peer_lem_example :
    (r : Table) × (delete_peer two_peers 1 ≡ found r)
    × IsValid r
    × (peers r.peer_list ≡ Spec.erase (λ p. p.id == 1) (peers two_peers.peer_list))
    × ((i : ℕ) → IsKept 1 (get_elem? two_peers.peer_list i) (get_elem? r.peer_list i))
    × (r.size ≡ 4)
    × (r.id_counter ≡ 3)
delete_peer_lem_example = delete_peer_lem two_peers 1 two_peers-IsValid

add_peer_lem_example :
    (r : Table) × (add_peer two_peers (10 ∷ 0 ∷ 0 ∷ 3 ∷ []) (some 7) 300
      ≡ found (some (entry two_peers (10 ∷ 0 ∷ 0 ∷ 3 ∷ []) (some 7) 300), r))
    × IsValid r
    × Perm
        (peers r.peer_list)
        (entry two_peers (10 ∷ 0 ∷ 0 ∷ 3 ∷ []) (some 7) 300 ∷ peers two_peers.peer_list)
    × (r.id_counter ≡ 3 + 1)
add_peer_lem_example =
    add_peer_lem two_peers (10 ∷ 0 ∷ 0 ∷ 3 ∷ []) (some 7) 300 two_peers-IsValid (omega arith)

abbrev one_left : Table
one_left = record {
  peer_list = peer ada ∷ null ∷ peer bob ∷ [];
  count = 2;
  size = 3;
  id_counter = 3;
}

one_left-IsValid : IsValid one_left
unfolding peers
one_left-IsValid = record { sized = refl; written = tt; counted = refl }

add_peer_fault_example :
    (r : Table) × (add_peer one_left (10 ∷ 0 ∷ 0 ∷ 3 ∷ []) (some 7) 300
      ≡ found (some (entry one_left (10 ∷ 0 ∷ 0 ∷ 3 ∷ []) (some 7) 300), r))
    × (add_peer r (10 ∷ 0 ∷ 0 ∷ 4 ∷ []) (some 8) 400 ≡ fault)
add_peer_fault_example =
    add_peer_fault one_left (10 ∷ 0 ∷ 0 ∷ 3 ∷ []) (10 ∷ 0 ∷ 0 ∷ 4 ∷ []) (some 7) (some 8) 300 400
      one_left-IsValid refl

deserialize-serialize_peer_table_example :
    (bytes : List ℕ) × (serialize_peer_table two_peers ≡ found bytes)
    × (r : Table) × (deserialize_peer_table bytes ≡ found r)
    × (peers r.peer_list ≡ map client_copy (peers two_peers.peer_list))
    × (r.count ≡ 2 * 2)
deserialize-serialize_peer_table_example =
    deserialize-serialize_peer_table two_peers two_peers-IsValid
      (unfold peers in (omega arith, refl, (omega arith, refl, tt))) (omega arith)
