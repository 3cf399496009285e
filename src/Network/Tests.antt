-- ===== src/Network/Tests.antt =====
-- The theorems of Network at concrete packets.
use seven_deadly_syns.Prelude.{ℕ, ◌≡◌, refl, some, List, [], ◌∷◌, ◌++◌, arith}
use seven_deadly_syns.FileSystem.OneFile.{tree, tree-IsNamed}
use seven_deadly_syns.FileSystem.Unary.{unary_io}
use seven_deadly_syns.PeerTable.{Peer, null, peer, Table, found}
use seven_deadly_syns.PeerTable.Lookup.{peers, IsValid}
use seven_deadly_syns.Packets.OneByte.{byte_socket}
use seven_deadly_syns.Network.{packet, Arrival, arrived, recv_packet, chunk_got}
use seven_deadly_syns.Network.Frames.{IsArrival, recv_packet_lem}
use seven_deadly_syns.Network.Bodies.{
  send_chunk_got, receive_client_got, send_got_chunk_update, receive_chunk_got, send_updated_files,
  receive_client_update, send_fs_update, recv_diff, bare_fs, chunk_got_lem, update_lem,
}
use seven_deadly_syns.Network.Chunks.{chunk_packet, send_chunk, received, PeerMsg, recv_peer_msg}
use seven_deadly_syns.Network.Peers.{sends, IsReceived, recv_peer_msg_lem}
use seven_deadly_syns.Network.Alive.{check_liveliness, check_liveliness_lem}

-- The packet on the chunk 2 of `/a`, and two bytes of the next.
abbrev got_packet : List ℕ
got_packet = packet chunk_got (send_chunk_got (b'/' ∷ b'a' ∷ []) 2)

got_small : got_packet ≡ 4 ∷ 0 ∷ 0 ∷ 0 ∷ 7 ∷ 0 ∷ 0 ∷ 0 ∷ 2 ∷ 0 ∷ 0 ∷ 0 ∷ b'/' ∷ b'a' ∷ 0 ∷ []
unfolding packet send_chunk_got
got_small = refl

recv_packet_lem_example :
    (a : Arrival) × (s' : List ℕ) × (recv_packet byte_socket
        (packet 4 (2 ∷ 0 ∷ 0 ∷ 0 ∷ b'a' ∷ 0 ∷ []) ++ (9 ∷ 9 ∷ []))
      ≡ some (a, s'))
    × IsArrival byte_socket 4 (2 ∷ 0 ∷ 0 ∷ 0 ∷ b'a' ∷ 0 ∷ []) (9 ∷ 9 ∷ []) s' a
recv_packet_lem_example =
    recv_packet_lem byte_socket (packet 4 (2 ∷ 0 ∷ 0 ∷ 0 ∷ b'a' ∷ 0 ∷ []) ++ (9 ∷ 9 ∷ [])) 4
      (2 ∷ 0 ∷ 0 ∷ 0 ∷ b'a' ∷ 0 ∷ []) (9 ∷ 9 ∷ []) (omega arith) (omega arith)
      (unfold byte_socket in refl)

received_whole :
    recv_packet byte_socket (packet 4 (2 ∷ 0 ∷ 0 ∷ 0 ∷ b'a' ∷ 0 ∷ []) ++ (9 ∷ 9 ∷ []))
    ≡ some (arrived 4 (2 ∷ 0 ∷ 0 ∷ 0 ∷ b'a' ∷ 0 ∷ []), 9 ∷ 9 ∷ [])
unfolding recv_packet packet byte_socket
received_whole = refl

chunk_got_lem_example :
    (receive_client_got 4096 (send_chunk_got (b'/' ∷ b'a' ∷ []) 2) ≡ some (b'/' ∷ b'a' ∷ [], 2))
    × (receive_chunk_got (send_got_chunk_update 5 (b'/' ∷ b'a' ∷ []) 2)
        ≡ some (5, b'/' ∷ b'a' ∷ [], 2))
chunk_got_lem_example =
    chunk_got_lem 4096 2 5 (b'/' ∷ b'a' ∷ []) (omega arith, (omega arith, tt)) (omega arith)
      (omega arith) (omega arith)

update_lem_example :
    (receive_client_update unary_io (send_updated_files unary_io (tree 8) (tree 5))
      ≡ some (bare_fs (tree 8), bare_fs (tree 5)))
    × (recv_diff unary_io (send_fs_update unary_io 6 (tree 8) (tree 5))
        ≡ some (bare_fs (tree 8), bare_fs (tree 5), 6))
update_lem_example =
    update_lem unary_io (tree 8) (tree 5) 6 (tree-IsNamed 8) (tree-IsNamed 5) (omega arith)

-- A peer that was heard a thousand seconds ago.
abbrev silent : Peer
silent = record { ip_addr = 10 ∷ 0 ∷ 0 ∷ 1 ∷ []; socketfd = some 5; id = 1; time_last_alive = 100 }

abbrev silent_table : Table
silent_table = record { peer_list = null ∷ peer silent ∷ []; count = 1; size = 2; id_counter = 2 }

silent-IsValid : IsValid silent_table
unfolding peers
silent-IsValid = record { sized = refl; written = tt; counted = refl }

check_liveliness_lem_example : check_liveliness 1100 silent_table ≡ found ([], silent_table)
check_liveliness_lem_example =
    check_liveliness_lem 1100 silent_table silent-IsValid (omega arith, tt)

-- The chunk 3 of `/a`, sent to the client 2 for the request 9, and two bytes of the next packet.
recv_peer_msg_lem_example :
    (msg : PeerMsg) × (s' : List ℕ) × (recv_peer_msg byte_socket 6
        (chunk_packet 0 1 (send_chunk 2 (b'/' ∷ b'a' ∷ []) 3 (8 ∷ 8 ∷ []) 9) ++ (7 ∷ 7 ∷ []))
      ≡ some (msg, s'))
    × IsReceived byte_socket
        (received (send_chunk 6 (b'/' ∷ b'a' ∷ []) 3 (8 ∷ 8 ∷ []) 9))
        (7 ∷ 7 ∷ [])
        s'
        msg
recv_peer_msg_lem_example =
    recv_peer_msg_lem byte_socket
      (chunk_packet 0 1 (send_chunk 2 (b'/' ∷ b'a' ∷ []) 3 (8 ∷ 8 ∷ []) 9) ++ (7 ∷ 7 ∷ []))
      (sends (8 ∷ 8 ∷ [])) 0 2 6 3 9 (b'/' ∷ b'a' ∷ []) (7 ∷ 7 ∷ [])
      (omega arith, (omega arith, tt)) (omega arith) (omega arith) (omega arith) (omega arith)
      (unfold byte_socket in refl)
