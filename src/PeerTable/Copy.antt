-- ===== src/PeerTable/Copy.antt =====
-- serialize_peer_table and deserialize_peer_table: what a client's copy holds.
use mathlib.Core.List.{append-nil, append_assoc}
use seven_deadly_syns.Prelude.{
  ℕ, zero, suc, ◌+◌, ◌*◌, ◌/◌, ◌≤◌, ◌<◌, ◌≡◌, refl, sym, ap, ap₂, ◌∙◌, false, ◌==◌, none, some,
  List, [], ◌∷◌, ◌++◌, map, length, length-append, length-replicate, replicate, set, take, drop,
  take-append, drop-append, arith,
}
use seven_deadly_syns.PeerTable.{
  Peer, Slot, uninit, null, peer, Table, init, found, first_free, grow, copy_peer,
}
use seven_deadly_syns.PeerTable.Lookup.{peers, IsWritten, IsValid}
use seven_deadly_syns.PeerTable.Codec.{
  int_bytes, read_int, client_size, client_bytes, prepend, serialize_slots, serialize_peer_table,
  read_peers, deserialize_peer_table,
}

-- The peers that fit their format: an id of 32 bits and an address of IP_LEN bytes.
abbrev pub Fit : List Peer → Type 0
Fit [] = Unit {0}
Fit (p ∷ ps) = (p.id < 4294967296) × (length p.ip_addr ≡ 4) × Fit ps

-- What a client knows of a peer.
abbrev pub client_copy : Peer → Peer
client_copy p = record { ip_addr = p.ip_addr; socketfd = none; id = p.id; time_last_alive = 0 }

bytes_of : List Peer → List ℕ
unfolding client_bytes
bytes_of [] = []
bytes_of (p ∷ ps) = client_bytes p ++ bytes_of ps

pub read_int-int_bytes : (n : ℕ) → n < 4294967296 → read_int (int_bytes n) ≡ n
unfolding read_int int_bytes
read_int-int_bytes n h = omega arith

serialize_slots_lem :
    (slots : List Slot)
    → IsWritten slots
    → serialize_slots (length slots) (length (peers slots)) slots ≡ found (bytes_of (peers slots))
unfolding serialize_slots peers bytes_of
serialize_slots_lem [] w = refl
serialize_slots_lem (uninit ∷ slots) w = absurd w
serialize_slots_lem (null ∷ slots) w = serialize_slots_lem slots w
serialize_slots_lem (peer p ∷ slots) w = ap (prepend (client_bytes p)) (serialize_slots_lem slots w)

-- Slots that begin with peers and end with `k` free ones.
filled : List Peer → ℕ → List Slot
filled [] k = replicate k null
filled (p ∷ ps) k = peer p ∷ filled ps k

length-filled : (ps : List Peer) (k : ℕ) → length (filled ps k) ≡ length ps + k
unfolding filled
length-filled [] k = omega (arith, length-replicate k null)
length-filled (p ∷ ps) k = omega (arith, length-filled ps k)

peers-filled : (ps : List Peer) (k : ℕ) → peers (filled ps k) ≡ ps
unfolding filled peers
peers-filled [] zero = refl
peers-filled [] (suc k) = peers-filled [] k
peers-filled (p ∷ ps) k = ap (◌∷◌ p) (peers-filled ps k)

first_free-filled :
    (ps : List Peer) (k m i : ℕ)
    → length ps < m
    → first_free m (filled ps (suc k)) i ≡ found (i + length ps)
unfolding filled first_free
first_free-filled ps k zero i h = absurd (omega arith)
first_free-filled [] k (suc m) i h = ap found (omega arith)
first_free-filled (p ∷ ps) k (suc m) i h =
    first_free-filled ps k m (i + 1) (omega arith) ∙ ap found (omega arith)

set-filled :
    (ps : List Peer) (k : ℕ) (p : Peer)
    → set (filled ps (suc k)) (length ps) (peer p) ≡ filled (ps ++ (p ∷ [])) k
unfolding filled
set-filled [] k p = refl
set-filled (q ∷ ps) k p = ap (◌∷◌ (peer q)) (set-filled ps k p)

-- A table that was filled from its first slot on.
abbrev table : List Peer → ℕ → ℕ → ℕ → Table
table ps k count size = record {
  peer_list = filled ps k;
  count = count;
  size = size;
  id_counter = 1;
}

abbrev client : ℕ → List ℕ → Peer
client id ip = record { ip_addr = ip; socketfd = none; id = id; time_last_alive = 0 }

copy_peer-table :
    (ps : List Peer) (k count size id : ℕ) (ip : List ℕ)
    → length ps < size
    → count + 1 < size
    → copy_peer (table ps (suc k) count size) id ip none
      ≡ found (some (client id ip), table (ps ++ (client id ip ∷ [])) k (count + 1) size)
unfolding copy_peer grow
copy_peer-table ps k count size id ip room more =
    let slots = set-filled ps k (client id ip) in
    let free : first_free size (filled ps (suc k)) 0 ≡ found (length ps) =
      first_free-filled ps k size 0 room ∙ ap found (omega arith) in
    let below : (count + 1 == size) ≡ false = ground arith in
    rw (free, copy_peer, slots, below) refl

take-client_bytes : (p : Peer) (more : List ℕ) → take 4 (client_bytes p ++ more) ≡ int_bytes p.id
unfolding client_bytes int_bytes
take-client_bytes p more = refl

take-drop-client_bytes :
    (p : Peer) (more : List ℕ)
    → length p.ip_addr ≡ 4
    → take 4 (drop 4 (client_bytes p ++ more)) ≡ p.ip_addr
unfolding client_bytes int_bytes
take-drop-client_bytes p more h = take-append p.ip_addr more 4 h

drop-client_bytes :
    (p : Peer) (more : List ℕ)
    → length p.ip_addr ≡ 4
    → drop client_size (client_bytes p ++ more) ≡ more
unfolding client_bytes int_bytes
drop-client_bytes p more h = drop-append p.ip_addr more 4 h

found_table :
    {ps ps' : List Peer} {k k' count count' : ℕ} (size : ℕ)
    → ps ≡ ps'
    → k ≡ k'
    → count ≡ count'
    → found (table ps k count size) ≡ found (table ps' k' count' size)
found_table size e f g = rw (e, f, g)

read_peers-copied :
    (n : ℕ) (t u : Table) (buffer : List ℕ) (p : Peer)
    → copy_peer t (read_int (take 4 buffer)) (take 4 (drop 4 buffer)) none ≡ found (some p, u)
    → read_peers (suc n) t buffer
      ≡ read_peers n (record u { count = u.count + 1 }) (drop client_size buffer)
unfolding read_peers
read_peers-copied n t u buffer p e = rw (e, read_peers)

read_peers-bytes_of :
    (qs ps : List Peer) (k n count size : ℕ)
    → Fit qs
    → n ≡ length qs + k
    → length ps + length qs ≤ size
    → count + length qs * 2 ≤ size
    → read_peers (length qs) (table ps n count size) (bytes_of qs)
      ≡ found (table (ps ++ map client_copy qs) k (count + length qs * 2) size)
unfolding read_peers bytes_of
read_peers-bytes_of [] ps k n count size fit e room more =
    found_table size (sym (append-nil ps)) (omega arith) (omega arith)
read_peers-bytes_of (q ∷ qs) ps k zero count size fit e room more = absurd (omega arith)
read_peers-bytes_of (q ∷ qs) ps k (suc n) count size (id_fits, ip_fits, fit) e room more =
    let rest = bytes_of qs in
    let id_at : read_int (take 4 (client_bytes q ++ rest)) ≡ q.id =
      ap read_int (take-client_bytes q rest) ∙ read_int-int_bytes q.id id_fits in
    let ip_at = take-drop-client_bytes q rest ip_fits in
    let rest_at = drop-client_bytes q rest ip_fits in
    let copied = copy_peer-table ps n count size q.id q.ip_addr (omega arith) (omega arith) in
    let buffer = client_bytes q ++ rest in
    let t = table ps (suc n) count size in
    read_peers-copied (length qs) t (table (ps ++ (client_copy q ∷ [])) n (count + 1) size) buffer
      (client_copy q) (ap₂ (λ id ip. copy_peer t id ip none) id_at ip_at ∙ copied)
    ∙ ap (read_peers (length qs) (table (ps ++ (client_copy q ∷ [])) n (count + 1 + 1) size))
        rest_at
    ∙ read_peers-bytes_of qs (ps ++ (client_copy q ∷ [])) k n (count + 1 + 1) size fit (omega arith)
        (omega (arith, length-append ps (client_copy q ∷ []))) (omega arith)
    ∙ found_table size (append_assoc ps (client_copy q ∷ []) (map client_copy qs)) refl
        (omega arith)

length-bytes_of : (qs : List Peer) → Fit qs → length (bytes_of qs) ≡ length qs * client_size
unfolding bytes_of client_bytes int_bytes
length-bytes_of [] fit = refl
length-bytes_of (q ∷ qs) (id_fits, ip_fits, fit) =
    omega (arith, length-append q.ip_addr (bytes_of qs), ip_fits, length-bytes_of qs fit)

serialize-counted :
    (t : Table) → 0 < t.count → serialize_peer_table t ≡ serialize_slots t.size t.count t.peer_list
unfolding serialize_peer_table
serialize-counted t pos = let c : (t.count == 0) ≡ false = ground arith in rw c refl

deserialize-nonempty :
    (buffer : List ℕ) (n : ℕ)
    → length buffer / client_size ≡ n
    → 0 < n
    → deserialize_peer_table buffer ≡ read_peers n (init (n * 2)) buffer
unfolding deserialize_peer_table
deserialize-nonempty buffer n entries pos =
    let some_byte : (length buffer == 0) ≡ false = ground arith in
    let some_peer : (length buffer / client_size == 0) ≡ false = ground arith in
    rw (some_byte, some_peer) (ap (λ m. read_peers m (init (m * 2)) buffer) entries)

init-table : (size : ℕ) → init size ≡ table [] size 0 size
unfolding init filled
init-table size = refl

-- A valid table of at least one peer, with ids below 2 ^ 32 and addresses of IP_LEN bytes, is sent
-- as bytes; the client reads them as a table whose peers are copies of the table's, in order, without their sockets and times, and whose count is
-- twice the number of its peers.
pub deserialize-serialize_peer_table :
    (t : Table)
    → IsValid t
    → Fit (peers t.peer_list)
    → 0 < t.count
    → (bytes : List ℕ) × (serialize_peer_table t ≡ found bytes)
      × (r : Table) × (deserialize_peer_table bytes ≡ found r)
      × (peers r.peer_list ≡ map client_copy (peers t.peer_list))
      × (r.count ≡ t.count * 2)
deserialize-serialize_peer_table t v fit pos =
    let ps = peers t.peer_list in
    let n = length ps in
    let bytes = bytes_of ps in
    let len = length-bytes_of ps fit in
    let entries : length bytes / client_size ≡ n = omega (arith, len) in
    (
      bytes,
      serialize-counted t pos
          ∙ ap₂ (λ m k. serialize_slots m k t.peer_list) (sym v.sized) v.counted
          ∙ serialize_slots_lem t.peer_list v.written,
      table (map client_copy ps) n (n * 2) (n * 2),
      deserialize-nonempty bytes n entries (omega (arith, v.counted))
          ∙ ap (λ u. read_peers n u bytes) (init-table (n * 2))
          ∙ read_peers-bytes_of ps [] n (n * 2) 0 (n * 2) fit (omega arith) (omega arith)
              (omega arith)
          ∙ found_table (n * 2) refl refl (omega arith),
      peers-filled (map client_copy ps) n,
      omega (arith, v.counted),
    )
