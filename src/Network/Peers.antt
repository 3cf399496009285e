-- ===== src/Network/Peers.antt =====
-- A packet of one client, received by another.
use mathlib.Core.Path.{subst}
use seven_deadly_syns.Prelude.{
  ℕ, suc, ◌+◌, ◌==◌, ◌<◌, ◌≡◌, refl, sym, ap, ap₂, ◌∙◌, inl, inr, true, false, if◌then◌else◌,
  Option, none, some, List, [], ◌∷◌, ◌++◌, length, length-append, take, drop, arith, Bool-cases,
}
use mathlib.Core.List.{append_assoc}
use seven_deadly_syns.FileSystem.Types.{Name}
use seven_deadly_syns.FileSystem.Serial.{NoNull, push_string}
use seven_deadly_syns.FileSystem.Serial.RoundTrip.{read_string_lem}
use seven_deadly_syns.PeerTable.Codec.{int_bytes, read_int}
use seven_deadly_syns.PeerTable.Copy.{read_int-int_bytes}
use seven_deadly_syns.Packets.{
  Recv, Outcome, ended, broken, filled, safe_recv, safe_recv_lem, IsOutcome,
}
use seven_deadly_syns.Network.{is_positive}
use seven_deadly_syns.Network.Frames.{append-cancel, Lost}
use seven_deadly_syns.Network.Chunks.{
  ChunkData, send_chunk_request, send_chunk, send_chunk_rejection, chunk, chunk_request, req_reject,
  data_len, c2c_pkt, chunk_packet, FromPeer, requested, received, handle_peer_msg, PeerMsg, gone,
  came, recv_part, recv_peer_msg,
}

-- A part that is as long as its length says, or that is not sent for one that is not positive.
abbrev Fits : ℕ → List ℕ → Type 0
Fits n body = if is_positive n then length body ≡ n else body ≡ []

module _ {Socket : Type 0} (io : Recv Socket) where
  abbrev IsPart : List ℕ → List ℕ → Socket → Option (List ℕ) → Type 0
  IsPart body rest s' none = Lost io s'
  IsPart body rest s' (some buf) = (buf ≡ body) × (io.still s' ≡ rest)

  recv_part_lem :
      (s : Socket) (n : ℕ) (body rest : List ℕ)
      → Fits n body
      → io.still s ≡ body ++ rest
      → (o : Option (List ℕ)) × (s' : Socket) × (recv_part io s n ≡ some (o, s'))
        × IsPart body rest s' o
  unfolding recv_part
  recv_part_lem s n body rest fits stream = elim (Bool-cases (is_positive n)) [
    | inl more ↦ sent more (subst (λ b. if b then length body ≡ n else body ≡ []) more fits)
    | inr no_more ↦
        (let nothing : body ≡ [] =
            subst (λ b. if b then length body ≡ n else body ≡ []) no_more fits in
          (
            some [],
            s,
            rw (no_more, recv_part) refl,
            (sym nothing, stream ∙ ap (λ b. b ++ rest) nothing),
          ))
  ]
    where
      sent :
          is_positive n ≡ true
          → length body ≡ n
          → (o : Option (List ℕ)) × (s' : Socket) × (recv_part io s n ≡ some (o, s'))
            × IsPart body rest s' o
      sent more long =
          let (o, s', runs, outcome) = safe_recv_lem io s n in by_outcome o s' runs outcome
        where
          by_outcome :
              (o : Outcome) (s' : Socket)
              → safe_recv io (suc n) s n ≡ some (o, s')
              → IsOutcome io s s' n o
              → (o : Option (List ℕ)) × (s' : Socket) × (recv_part io s n ≡ some (o, s'))
                × IsPart body rest s' o
          by_outcome ended s' runs w = (
            none,
            s',
            rw (more, recv_part) (rw (runs, recv_part) refl),
            record { before = w.before; asked = _; result = inl w.result },
          )
          by_outcome broken s' runs w = (
            none,
            s',
            rw (more, recv_part) (rw (runs, recv_part) refl),
            record { before = w.before; asked = _; result = inr w.result },
          )
          by_outcome (filled buf) s' runs w =
              let (same, left) =
                append-cancel buf body (io.still s') rest (sym w.1 ∙ stream) (w.0 ∙ sym long) in
              (some buf, s', rw (more, recv_part) (rw (runs, recv_part) refl), (same, left))

-- What a client sends to another.
pub data Message : Type 0 where
  asks : Message
  sends : List ℕ → Message
  rejects : Message

abbrev pub type_of : Message → ℕ
type_of asks = chunk_request
type_of (sends bytes) = chunk
type_of rejects = req_reject

abbrev pub item : Message → ℕ → Name → ℕ → ℕ → ChunkData
item asks client_id path chunk_num job_id = send_chunk_request client_id path chunk_num job_id
item (sends bytes) client_id path chunk_num job_id =
    send_chunk client_id path chunk_num bytes job_id
item rejects client_id path chunk_num job_id = send_chunk_rejection client_id path chunk_num job_id

-- What the other hands on, with the id of the sender.
abbrev pub handed : Message → ChunkData → FromPeer
handed asks = requested
handed (sends bytes) = received
handed rejects = received

abbrev pub IsShort : Message → Type 0
IsShort asks = Unit {0}
IsShort (sends bytes) = length bytes < 2147483648
IsShort rejects = Unit {0}

abbrev sent_bytes : Message → List ℕ
sent_bytes asks = []
sent_bytes (sends bytes) = bytes
sent_bytes rejects = []

abbrev sent_len : Message → ℕ
sent_len asks = 0
sent_len (sends bytes) = length bytes
sent_len rejects = 4294967295

positive-Fits : (body : List ℕ) → length body < 2147483648 → Fits (length body) body
unfolding is_positive
positive-Fits [] h = refl
positive-Fits (b ∷ bs) h = ground (arith, h)

sent-Fits : (m : Message) → IsShort m → Fits (sent_len m) (sent_bytes m)
unfolding is_positive
sent-Fits asks h = refl
sent-Fits (sends bytes) h = positive-Fits bytes h
sent-Fits rejects h = refl

handled :
    (m : Message) (peer_id chunk_num job_id : ℕ) (path : Name)
    → NoNull path
    → IsShort m
    → handle_peer_msg peer_id
        (type_of m)
        chunk_num
        job_id
        (sent_len m)
        (push_string path)
        (sent_bytes m)
      ≡ some (handed m (item m peer_id path chunk_num job_id))
unfolding handle_peer_msg push_string
handled asks peer_id k j path h short = rw (read_string_lem path [] h, handle_peer_msg) refl
handled (sends bytes) peer_id k j path h short =
    let long : (length bytes == 4294967295) ≡ false = ground (arith, short) in
    rw (read_string_lem path [] h, handle_peer_msg) (rw (long, handle_peer_msg) refl)
handled rejects peer_id k j path h short = rw (read_string_lem path [] h, handle_peer_msg) refl

packet-parts :
    (m : Message) (src to k j : ℕ) (path : Name)
    → chunk_packet src (type_of m) (item m to path k j)
      ≡ c2c_pkt src (type_of m) (item m to path k j) ++ (push_string path ++ sent_bytes m)
unfolding chunk_packet
packet-parts asks src to k j path = refl
packet-parts (sends bytes) src to k j path = refl
packet-parts rejects src to k j path = refl

-- The fields of a header.
record Header (pkt : List ℕ) (t k l n j : ℕ) : Type 0 where
  type : read_int (take 4 pkt) ≡ t
  chunk_num : read_int (take 4 (drop 8 pkt)) ≡ k
  name_len : read_int (take 4 (drop 12 pkt)) ≡ l
  data_len : read_int (take 4 (drop 16 pkt)) ≡ n
  job_id : read_int (take 4 (drop 20 pkt)) ≡ j

abbrev six_ints : ℕ → ℕ → ℕ → ℕ → ℕ → ℕ → List ℕ
six_ints t src k l n j =
    int_bytes t ++ (int_bytes src ++ (int_bytes k ++ (int_bytes l ++ (int_bytes n ++ int_bytes j))))

six_ints-Header :
    (t src k l n j : ℕ)
    → t < 4294967296
    → k < 4294967296
    → l < 4294967296
    → n < 4294967296
    → j < 4294967296
    → Header (six_ints t src k l n j) t k l n j
unfolding int_bytes
six_ints-Header t src k l n j ht hk hl hn hj = record {
  type = read_int-int_bytes t ht;
  chunk_num = read_int-int_bytes k hk;
  name_len = read_int-int_bytes l hl;
  data_len = read_int-int_bytes n hn;
  job_id = read_int-int_bytes j hj;
}

length-six_ints : (t src k l n j : ℕ) → length (six_ints t src k l n j) ≡ 24
unfolding int_bytes
length-six_ints t src k l n j = omega arith

c2c_pkt-six_ints :
    (m : Message) (src to k j : ℕ) (path : Name)
    → c2c_pkt src (type_of m) (item m to path k j)
      ≡ six_ints (type_of m) src k (length path + 1) (sent_len m) j
unfolding c2c_pkt data_len
c2c_pkt-six_ints asks src to k j path = refl
c2c_pkt-six_ints (sends bytes) src to k j path = refl
c2c_pkt-six_ints rejects src to k j path = refl

type_of-small : (m : Message) → type_of m < 4294967296
type_of-small asks = omega arith
type_of-small (sends bytes) = omega arith
type_of-small rejects = omega arith

sent_len-small : (m : Message) → IsShort m → sent_len m < 4294967296
sent_len-small asks h = omega arith
sent_len-small (sends bytes) h = omega (arith, h)
sent_len-small rejects h = omega arith

name-Fits : (path : Name) → length path + 1 < 2147483648 → Fits (length path + 1) (push_string path)
unfolding push_string
name-Fits path h =
    let long : length (path ++ (0 ∷ [])) ≡ length path + 1 = length-append path (0 ∷ []) in
    subst (λ n. Fits n (path ++ (0 ∷ []))) long
      (positive-Fits (path ++ (0 ∷ [])) (omega (arith, h, long)))

module _ {Socket : Type 0} (io : Recv Socket) where
  abbrev pub IsReceived : FromPeer → List ℕ → Socket → PeerMsg → Type 0
  IsReceived x rest s' gone = Lost io s'
  IsReceived x rest s' (came y) = (y ≡ some x) × (io.still s' ≡ rest)

  abbrev Receives : FromPeer → List ℕ → Option (PeerMsg × Socket) → Type 0
  Receives x rest r =
      (msg : PeerMsg) × (s' : Socket) × (r ≡ some (msg, s')) × IsReceived x rest s' msg

  module _ (peer_id k j : ℕ) (m : Message) (path : Name) (named : NoNull path) (short : IsShort m)
      (fits : length path + 1 < 2147483648) (rest : List ℕ) where
    after_name :
        (s s1 s2 : Socket) (pkt buf : List ℕ)
        → safe_recv io 25 s 24 ≡ some (filled pkt, s1)
        → Header pkt (type_of m) k (length path + 1) (sent_len m) j
        → recv_part io s1 (length path + 1) ≡ some (some buf, s2)
        → buf ≡ push_string path
        → io.still s2 ≡ sent_bytes m ++ rest
        → Receives (handed m (item m peer_id path k j)) rest (recv_peer_msg io peer_id s)
    unfolding recv_peer_msg
    after_name s s1 s2 pkt buf runs hd name same stream =
        let (o, s3, data_, part) =
          recv_part_lem io s2 (sent_len m) (sent_bytes m) rest (sent-Fits m short) stream in
        by_data o s3 data_ part
      where
        name' : recv_part io s1 (read_int (take 4 (drop 12 pkt))) ≡ some (some buf, s2)
        name' = ap (recv_part io s1) hd.name_len ∙ name

        by_data :
            (o : Option (List ℕ)) (s3 : Socket)
            → recv_part io s2 (sent_len m) ≡ some (o, s3)
            → IsPart io (sent_bytes m) rest s3 o
            → Receives (handed m (item m peer_id path k j)) rest (recv_peer_msg io peer_id s)
        by_data none s3 data_ part = (
          gone,
          s3,
          rw (runs, recv_peer_msg)
              (rw (name', recv_peer_msg)
                (rw (ap (recv_part io s2) hd.data_len ∙ data_, recv_peer_msg) refl)),
          part,
        )
        by_data (some bytes) s3 data_ (same', left) =
            let switched : handle_peer_msg peer_id (read_int (take 4 pkt))
                  (read_int (take 4 (drop 8 pkt))) (read_int (take 4 (drop 20 pkt)))
                  (read_int (take 4 (drop 16 pkt))) buf bytes
                ≡ handle_peer_msg peer_id (type_of m) k j (sent_len m) (push_string path)
                    (sent_bytes m) =
              ap₂
                (λ t c.
                  handle_peer_msg peer_id t c (read_int (take 4 (drop 20 pkt)))
                    (read_int (take 4 (drop 16 pkt))) buf bytes)
                hd.type hd.chunk_num
              ∙ ap₂ (λ i n. handle_peer_msg peer_id (type_of m) k i n buf bytes) hd.job_id
                  hd.data_len
              ∙ ap₂ (handle_peer_msg peer_id (type_of m) k j (sent_len m)) same same' in
            (
              came (some (handed m (item m peer_id path k j))),
              s3,
              rw (runs, recv_peer_msg)
                  (rw (name', recv_peer_msg)
                    (rw (ap (recv_part io s2) hd.data_len ∙ data_, recv_peer_msg)
                      (ap (λ r. some (came r, s3))
                        (switched ∙ handled m peer_id k j path named short)))),
              (refl, left),
            )

    after_fields :
        (s s1 : Socket) (pkt : List ℕ)
        → safe_recv io 25 s 24 ≡ some (filled pkt, s1)
        → Header pkt (type_of m) k (length path + 1) (sent_len m) j
        → io.still s1 ≡ push_string path ++ (sent_bytes m ++ rest)
        → Receives (handed m (item m peer_id path k j)) rest (recv_peer_msg io peer_id s)
    unfolding recv_peer_msg
    after_fields s s1 pkt runs hd stream =
        let (o, s2, name, part) =
          recv_part_lem io s1 (length path + 1) (push_string path) (sent_bytes m ++ rest)
            (name-Fits path fits) stream in
        by_name o s2 name part
      where
        by_name :
            (o : Option (List ℕ)) (s2 : Socket)
            → recv_part io s1 (length path + 1) ≡ some (o, s2)
            → IsPart io (push_string path) (sent_bytes m ++ rest) s2 o
            → Receives (handed m (item m peer_id path k j)) rest (recv_peer_msg io peer_id s)
        by_name none s2 name part = (
          gone,
          s2,
          rw (runs, recv_peer_msg)
              (rw (ap (recv_part io s1) hd.name_len ∙ name, recv_peer_msg) refl),
          part,
        )
        by_name (some buf) s2 name (same, left) = after_name s s1 s2 pkt buf runs hd name same left

  -- What one client sends to another, a request for a chunk, a chunk or a rejection, at the start of the
  -- stream of the other's socket, however recv cuts it: handle_peer_msg puts the same item on a queue of the
  -- other, with the id of the sender, and leaves the stream behind the packet, or a call of recv gave 0 or
  -- -1. The path holds no 0, its length and that of the chunk are those of an int, and so are the
  -- numbers.
  pub recv_peer_msg_lem :
      (s : Socket) (m : Message) (src to peer_id k j : ℕ) (path : Name) (rest : List ℕ)
      → NoNull path
      → IsShort m
      → length path + 1 < 2147483648
      → k < 4294967296
      → j < 4294967296
      → io.still s ≡ chunk_packet src (type_of m) (item m to path k j) ++ rest
      → (msg : PeerMsg) × (s' : Socket) × (recv_peer_msg io peer_id s ≡ some (msg, s'))
        × IsReceived (handed m (item m peer_id path k j)) rest s' msg
  unfolding recv_peer_msg
  recv_peer_msg_lem s m src to peer_id k j path rest named short fits hk hj stream =
      let (o, s1, runs, outcome) = safe_recv_lem io s 24 in by_outcome o s1 runs outcome
    where
      ints : List ℕ
      ints = six_ints (type_of m) src k (length path + 1) (sent_len m) j

      whole : io.still s ≡ ints ++ (push_string path ++ (sent_bytes m ++ rest))
      whole =
          stream
          ∙ ap (λ l. l ++ rest)
              (packet-parts m src to k j path
                ∙ ap (λ l. l ++ (push_string path ++ sent_bytes m))
                    (c2c_pkt-six_ints m src to k j path))
          ∙ append_assoc ints (push_string path ++ sent_bytes m) rest
          ∙ ap (λ l. ints ++ l) (append_assoc (push_string path) (sent_bytes m) rest)

      by_outcome :
          (o : Outcome) (s1 : Socket)
          → safe_recv io 25 s 24 ≡ some (o, s1)
          → IsOutcome io s s1 24 o
          → Receives (handed m (item m peer_id path k j)) rest (recv_peer_msg io peer_id s)
      by_outcome ended s1 runs w = (
        gone,
        s1,
        rw (runs, recv_peer_msg) refl,
        record { before = w.before; asked = _; result = inl w.result },
      )
      by_outcome broken s1 runs w = (
        gone,
        s1,
        rw (runs, recv_peer_msg) refl,
        record { before = w.before; asked = _; result = inr w.result },
      )
      by_outcome (filled pkt) s1 runs w =
          let all = push_string path ++ (sent_bytes m ++ rest) in
          let (same, left) =
            append-cancel pkt ints (io.still s1) all (sym w.1 ∙ whole)
              (w.0 ∙ sym (length-six_ints (type_of m) src k (length path + 1) (sent_len m) j)) in
          let hd =
            six_ints-Header (type_of m) src k (length path + 1) (sent_len m) j (type_of-small m) hk
              (omega (arith, fits)) (sent_len-small m short) hj in
          after_fields peer_id k j m path named short fits rest s s1 pkt runs
            (subst (λ p. Header p (type_of m) k (length path + 1) (sent_len m) j) (sym same) hd)
            left
