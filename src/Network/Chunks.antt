-- ===== src/Network/Chunks.antt =====
-- The packets between clients: a request for a chunk, a chunk, and a rejection.
use seven_deadly_syns.Prelude.{
  ℕ, suc, ◌+◌, ◌==◌, if◌then◌else◌, Option, none, some, List, [], ◌++◌, length, take, drop,
}
use seven_deadly_syns.FileSystem.Types.{Name}
use seven_deadly_syns.FileSystem.Serial.{push_string, read_string}
use seven_deadly_syns.PeerTable.Codec.{int_bytes, read_int}
use seven_deadly_syns.Packets.{Recv, ended, broken, filled, safe_recv}
use seven_deadly_syns.Network.{is_positive}

-- client_to_client_t
abbrev pub chunk_request : ℕ
chunk_request = 0

abbrev pub chunk : ℕ
chunk = 1

abbrev pub req_reject : ℕ
req_reject = 2

-- `chunk_data_t`, without the length of its name. `text` is none for the length -1.
pub record ChunkData : Type 0 where
  pub job_id : ℕ
  pub client_id : ℕ
  pub chunk_num : ℕ
  pub file_name : Name
  pub text : Option (List ℕ)

-- send_chunk_request, send_chunk and send_chunk_rejection, for a peer of the table: what they put on a
-- queue.
abbrev pub send_chunk_request : ℕ → Name → ℕ → ℕ → ChunkData
send_chunk_request peer_id filepath chunk_id request_id = record {
  job_id = request_id;
  client_id = peer_id;
  chunk_num = chunk_id;
  file_name = filepath;
  text = some [];
}

abbrev pub send_chunk : ℕ → Name → ℕ → List ℕ → ℕ → ChunkData
send_chunk peer_id file_name chunk_id chunk_data request_id = record {
  job_id = request_id;
  client_id = peer_id;
  chunk_num = chunk_id;
  file_name = file_name;
  text = some chunk_data;
}

abbrev pub send_chunk_rejection : ℕ → Name → ℕ → ℕ → ChunkData
send_chunk_rejection peer_id filepath chunk_id request_id = record {
  job_id = request_id;
  client_id = peer_id;
  chunk_num = chunk_id;
  file_name = filepath;
  text = none;
}

-- `data_len`; -1 as an unsigned int.
unfoldable pub data_len : Option (List ℕ) → ℕ
data_len none = 4294967295
data_len (some bytes) = length bytes

-- `c2c_pkt_t`, in the order of its fields. `src_client` is never set: the int that stands there.
unfoldable pub c2c_pkt : ℕ → ℕ → ChunkData → List ℕ
unfolding int_bytes data_len
c2c_pkt src_client type d =
    int_bytes type
    ++ (int_bytes src_client
        ++ (int_bytes d.chunk_num
            ++ (int_bytes (length d.file_name + 1)
                ++ (int_bytes (data_len d.text) ++ int_bytes d.job_id))))

-- The packet in check_req_chunk_q, check_send_chunk_q and check_req_error_q.
unfoldable pub chunk_packet : ℕ → ℕ → ChunkData → List ℕ
unfolding c2c_pkt push_string
chunk_packet src_client type d =
    c2c_pkt src_client type d
    ++ (push_string d.file_name
        ++ (if type == chunk then (elim (d.text) [ none ↦ [] | some bytes ↦ bytes ]) else []))

-- What handle_peer_msg puts on a queue of the client.
pub data FromPeer : Type 0 where
  requested : ChunkData → FromPeer
  received : ChunkData → FromPeer
  nothing : FromPeer

-- The switch of handle_peer_msg, on the fields of the packet. A name without a terminator is read past its
-- end, which gives `none`.
unfoldable pub handle_peer_msg : ℕ → ℕ → ℕ → ℕ → ℕ → List ℕ → List ℕ → Option FromPeer
unfolding read_string
handle_peer_msg peer_id type chunk_num job_id len file_name_buf data_buf =
    elim (read_string file_name_buf) [
      | none ↦ none
      | some (name, rest) ↦
          (let item : Option (List ℕ) → ChunkData = λ bytes. record {
            job_id = job_id;
            client_id = peer_id;
            chunk_num = chunk_num;
            file_name = name;
            text = bytes;
          } in
            if type == chunk_request
            then some (requested (item (some [])))
            else if type == chunk
            then some (received (item (if len == 4294967295 then none else some data_buf)))
            else if type == req_reject
            then some (received (item (if len == 4294967295 then none else some [])))
            else some nothing)
    ]

-- The three calls of safe_recv in handle_peer_msg, and its switch.
pub data PeerMsg : Type 0 where
  gone : PeerMsg
  came : Option FromPeer → PeerMsg

module _ {Socket : Type 0} (io : Recv Socket) where
  unfoldable pub recv_part : Socket → ℕ → Option (Option (List ℕ) × Socket)
  unfolding safe_recv is_positive
  recv_part s n =
      if is_positive n
      then elim (safe_recv io (suc n) s n) [
        | none ↦ none
        | some (ended, s') ↦ some (none, s')
        | some (broken, s') ↦ some (none, s')
        | some (filled buf, s') ↦ some (some buf, s')
      ]
      else some (some [], s)

  -- handle_peer_msg; `peer_id` is the id of the peer that get_peer_by_socket finds for the socket. Where it
  -- finds none, the source reads the id through NULL.
  unfoldable pub recv_peer_msg : ℕ → Socket → Option (PeerMsg × Socket)
  unfolding safe_recv read_int recv_part handle_peer_msg
  recv_peer_msg peer_id s = elim (safe_recv io 25 s 24) [
    | none ↦ none
    | some (ended, s') ↦ some (gone, s')
    | some (broken, s') ↦ some (gone, s')
    | some (filled pkt, s') ↦
        (let field : ℕ → ℕ = λ i. read_int (take 4 (drop i pkt)) in
          elim (recv_part s' (field 12)) [
            | none ↦ none
            | some (none, s'') ↦ some (gone, s'')
            | some (some file_name_buf, s'') ↦ elim (recv_part s'' (field 16)) [
              | none ↦ none
              | some (none, s3) ↦ some (gone, s3)
              | some (some data_buf, s3) ↦ some (
                came (
                    handle_peer_msg peer_id (field 0) (field 8) (field 20) (field 16) file_name_buf
                      data_buf),
                s3,
              )
            ]
          ])
  ]
