-- ===== src/Network.antt =====
-- The packets between clients and tracker: common/packets.h, client/network_client.c and
-- tracker/network_tracker.c. send is taken to send all the bytes that it is given; recv is a parameter, as
-- in Packets. An int is four bytes, the lowest first.
pub mod Bodies
pub mod Frames
pub mod Chunks
pub mod Peers
pub mod Alive
mod Tests
use seven_deadly_syns.Prelude.{
  ℕ, zero, suc, ◌+◌, ◌==◌, ltb, ◌&&◌, Bool, true, false, if◌then◌else◌, Option, none, some, List,
  [], ◌∷◌, ◌++◌, length, take, drop,
}
use seven_deadly_syns.FileSystem.Types.{FileSystem}
use seven_deadly_syns.FileSystem.Serial
use seven_deadly_syns.FileTable.{FileTable}
use seven_deadly_syns.FileTable.Codec
use seven_deadly_syns.PeerTable.{Table, Outcome, fault, absent, found}
use seven_deadly_syns.PeerTable.Codec.{
  int_bytes, read_int, serialize_peer_table, deserialize_peer_table,
}
use seven_deadly_syns.Packets.{Recv, ended, broken, filled, safe_recv}

-- client_to_tracker_t
abbrev pub heartbeat : ℕ
heartbeat = 0

abbrev pub client_state : ℕ
client_state = 1

abbrev pub client_update : ℕ
client_update = 2

abbrev pub request_master : ℕ
request_master = 3

abbrev pub chunk_got : ℕ
chunk_got = 4

-- tracker_to_client_t
abbrev pub file_acq_update : ℕ
file_acq_update = 1

abbrev pub fs_update : ℕ
fs_update = 2

abbrev pub master_status : ℕ
master_status = 3

abbrev pub peer_table : ℕ
peer_table = 6

abbrev pub master_ft : ℕ
master_ft = 7

-- `client_pkt_t` or `tracker_pkt_t`, and the data behind it.
unfoldable pub packet : ℕ → List ℕ → List ℕ
unfolding int_bytes
packet type body = int_bytes type ++ (int_bytes (length body) ++ body)

-- The loops of check_file_acq_q, check_updated_fs_q and check_cur_status_q of the client, and of
-- send_client_message in those of the tracker: all that is sent for the items of a queue.
unfoldable pub packets : ℕ → List (List ℕ) → List ℕ
unfolding packet
packets type [] = []
packets type (body ∷ bodies) = packet type body ++ packets type bodies

-- `data_len > 0` for an int.
unfoldable pub is_positive : ℕ → Bool
is_positive n = ltb 0 n && ltb n 2147483648

-- What the first part of handle_tracker_msg and handle_client_msg comes to: it returns -1, or there are a
-- type and the bytes of `buf`, none for NULL.
pub data Arrival : Type 0 where
  gone : Arrival
  arrived : ℕ → List ℕ → Arrival

module _ {Socket : Type 0} (io : Recv Socket) where
  -- The receiving of `buf`.
  unfoldable pub recv_body : Socket → ℕ → ℕ → Option (Arrival × Socket)
  unfolding safe_recv is_positive
  recv_body s type data_len =
      if is_positive data_len
      then elim (safe_recv io (suc data_len) s data_len) [
        | none ↦ none
        | some (ended, s') ↦ some (gone, s')
        | some (broken, s') ↦ some (gone, s')
        | some (filled buf, s') ↦ some (arrived type buf, s')
      ]
      else some (arrived type [], s)

  -- The receiving of `pkt`, of eight bytes, and of `buf`.
  unfoldable pub recv_packet : Socket → Option (Arrival × Socket)
  unfolding safe_recv read_int recv_body
  recv_packet s = elim (safe_recv io 9 s 8) [
    | none ↦ none
    | some (ended, s') ↦ some (gone, s')
    | some (broken, s') ↦ some (gone, s')
    | some (filled pkt, s') ↦ recv_body s' (read_int (take 4 pkt)) (read_int (drop 4 pkt))
  ]

-- What handle_client_msg puts on a queue of the tracker, with the id of the client.
pub data FromClient : Type 0 where
  alive : ℕ → FromClient
  client_got : ℕ → List ℕ → FromClient
  client_status : ℕ → FileSystem → FromClient
  client_updates : ℕ → List ℕ → FromClient
  master_req : ℕ → FromClient
  unknown : FromClient

-- The switch of handle_client_msg. `none` is a failed assert of filesystem_deserialize.
unfoldable pub handle_client_msg : Serial.Stdio → ℕ → ℕ → List ℕ → Option FromClient
unfolding Serial.deserialize
handle_client_msg io id type buf =
    if type == heartbeat
    then some (alive id)
    else if type == chunk_got
    then some (client_got id buf)
    else if type == client_state
    then elim (Serial.deserialize io buf) [
      | none ↦ none
      | some (fs, len) ↦ some (client_status id fs)
    ]
    else if type == client_update
    then some (client_updates id buf)
    else if type == request_master
    then some (master_req id)
    else some unknown

-- What handle_tracker_msg puts on a queue of the client.
pub data FromTracker : Type 0 where
  fs_updates : List ℕ → FromTracker
  file_acq : List ℕ → FromTracker
  master_received : FileSystem → FromTracker
  master_ft_received : FileTable → FromTracker
  new_table : Table → FromTracker
  unhandled : FromTracker

-- The switch of handle_tracker_msg.
unfoldable pub handle_tracker_msg : Serial.Stdio → Codec.Stdio → ℕ → List ℕ → Option FromTracker
unfolding Serial.deserialize Codec.deserialize deserialize_peer_table
handle_tracker_msg io ids type buf =
    if type == fs_update
    then some (fs_updates buf)
    else if type == file_acq_update
    then some (file_acq buf)
    else if type == master_status
    then elim (Serial.deserialize io buf) [
      | none ↦ none
      | some (fs, len) ↦ some (master_received fs)
    ]
    else if type == master_ft
    then elim (Codec.deserialize ids buf) [
      | none ↦ none
      | some (ft, len) ↦ some (master_ft_received ft)
    ]
    else if type == peer_table
    then elim (deserialize_peer_table buf) [
      | fault ↦ none
      | absent ↦ some unhandled
      | found t ↦ some (new_table t)
    ]
    else some unhandled
