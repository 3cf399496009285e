-- ===== src/PeerTable/Lookup.antt =====
-- The peers of a table, and the lookups and the deletion on them.
use seven_deadly_syns.Prelude.{
  ℕ, suc, ◌+◌, ◌-◌, ◌≡◌, refl, sym, ap, ◌∙◌, Bool, true, ◌==◌, if◌then◌else◌, Option, none, some,
  List, [], ◌∷◌, length, length-set, set, get_elem?, arith, ==_iff, ◌⊎◌, zero, Bool-cases, inl, inr,
}
use seven_deadly_syns.Queue.Spec
use seven_deadly_syns.PeerTable.{
  Peer, Slot, uninit, null, peer, Table, Outcome, absent, found, find_slot, find_peer,
  get_peer_by_id, get_peer_by_socket, get_peer_by_ip, is_socket, same_bytes, delete_peer,
}

-- The peers in the order of the slots.
unfoldable pub peers : List Slot → List Peer
peers [] = []
peers (uninit ∷ slots) = peers slots
peers (null ∷ slots) = peers slots
peers (peer p ∷ slots) = p ∷ peers slots

-- No slot is uninitialised.
abbrev pub IsWritten : List Slot → Type 0
IsWritten [] = Unit {0}
IsWritten (uninit ∷ slots) = ⊥
IsWritten (null ∷ slots) = IsWritten slots
IsWritten (peer p ∷ slots) = IsWritten slots

pub record IsValid (t : Table) : Type 0 where
  pub sized : length t.peer_list ≡ t.size
  pub written : IsWritten t.peer_list
  pub counted : t.count ≡ length (peers t.peer_list)

abbrev pub outcome : Option Peer → Outcome Peer
outcome none = absent
outcome (some p) = found p

find_peer_lem :
    (test : Peer → Bool) (slots : List Slot)
    → IsWritten slots
    → find_peer test (length slots) slots ≡ outcome (Spec.find test (peers slots))
unfolding find_peer Spec.find peers
find_peer_lem test [] w = refl
find_peer_lem test (uninit ∷ slots) w = absurd w
find_peer_lem test (null ∷ slots) w = find_peer_lem test slots w
find_peer_lem test (peer p ∷ slots) w = ground (arith, find_peer_lem test slots w)

find_peer-sized :
    (test : Peer → Bool) (t : Table)
    → IsValid t
    → find_peer test t.size t.peer_list ≡ outcome (Spec.find test (peers t.peer_list))
find_peer-sized test t v =
    ap (λ n. find_peer test n t.peer_list) (sym v.sized) ∙ find_peer_lem test t.peer_list v.written

-- get_peer_by_id on a table without uninitialised slots gives the first peer with the id, and
-- NULL if there is none or the id is 0.
get_peer_by_id_lem :
    (t : Table) (id : ℕ)
    → IsValid t
    → get_peer_by_id t id
      ≡ (if id == 0 then absent else outcome (Spec.find (λ p. p.id == id) (peers t.peer_list)))
unfolding get_peer_by_id
get_peer_by_id_lem t id v =
    let found_at = find_peer-sized (λ p. p.id == id) t v in ground (arith, found_at)

find_sound :
    (test : Peer → Bool) (ps : List Peer) (p : Peer) → Spec.find test ps ≡ some p → test p ≡ true
unfolding Spec.find
find_sound test [] p e = ground (arith, e)
find_sound test (q ∷ ps) p e = ground (arith, e, find_sound test ps p)

outcome-found : (o : Option Peer) (p : Peer) → outcome o ≡ found p → o ≡ some p
outcome-found none p e = ground (arith, e)
outcome-found (some q) p e = ground (arith, e)

is_socket_sound : (fd : ℕ) (s : Option ℕ) → is_socket fd s ≡ true → s ≡ some fd
unfolding is_socket
is_socket_sound fd none h = ground (arith, h)
is_socket_sound fd (some n) h = ground (arith, h)

same_bytes_sound : (xs ys : List ℕ) → same_bytes xs ys ≡ true → xs ≡ ys
unfolding same_bytes
same_bytes_sound [] [] h = refl
same_bytes_sound [] (y ∷ ys) h = ground (arith, h)
same_bytes_sound (x ∷ xs) [] h = ground (arith, h)
same_bytes_sound (x ∷ xs) (y ∷ ys) h = ground (arith, h, same_bytes_sound xs ys)

-- get_peer_by_socket and get_peer_by_ip on a table without uninitialised slots give the first peer
-- that has the socket, or the address, or NULL if there is none; a peer that they give has it.
get_peer_by_socket_ip_lem :
    (t : Table) (fd : ℕ) (ip : List ℕ)
    → IsValid t
    → (get_peer_by_socket t (some fd)
        ≡ outcome (Spec.find (λ p. is_socket fd p.socketfd) (peers t.peer_list)))
      × (get_peer_by_ip t ip
          ≡ outcome (Spec.find (λ p. same_bytes p.ip_addr ip) (peers t.peer_list)))
      × ((p : Peer) → get_peer_by_socket t (some fd) ≡ found p → p.socketfd ≡ some fd)
      × ((p : Peer) → get_peer_by_ip t ip ≡ found p → p.ip_addr ≡ ip)
unfolding get_peer_by_socket get_peer_by_ip
get_peer_by_socket_ip_lem t fd ip v =
    let by_socket = find_peer-sized (λ p. is_socket fd p.socketfd) t v in
    let by_ip = find_peer-sized (λ p. same_bytes p.ip_addr ip) t v in
    (
      by_socket,
      by_ip,
      λ p e. is_socket_sound fd p.socketfd (
          find_sound (λ q. is_socket fd q.socketfd) (peers t.peer_list) p
            (outcome-found _ p (sym by_socket ∙ e))),
      λ p e. same_bytes_sound p.ip_addr ip (
          find_sound (λ q. same_bytes q.ip_addr ip) (peers t.peer_list) p
            (outcome-found _ p (sym by_ip ∙ e))),
    )

-- What a search for a slot gives on slots that are all written.
pub data Finds (test : Peer → Bool) (slots : List Slot) (i : ℕ) (o : Outcome ℕ) : Type 0 where
  misses : o ≡ absent → Spec.find test (peers slots) ≡ none → Finds test slots i o
  hits :
      (k : ℕ) (p : Peer)
      → o ≡ found (i + k)
      → get_elem? slots k ≡ some (peer p)
      → test p ≡ true
      → peers (set slots k null) ≡ Spec.erase test (peers slots)
      → length (peers (set slots k null)) + 1 ≡ length (peers slots)
      → IsWritten (set slots k null)
      → Finds test slots i o

find_slot_lem :
    (test : Peer → Bool) (slots : List Slot) (i : ℕ)
    → IsWritten slots
    → Finds test slots i (find_slot test (length slots) slots i)
unfolding find_slot peers Spec.find Spec.erase
find_slot_lem test [] i w = misses refl refl
find_slot_lem test (uninit ∷ slots) i w = absurd w
find_slot_lem test (null ∷ slots) i w = elim (find_slot_lem test slots (i + 1) w) [
  | misses e none_left ↦ misses e none_left
  | hits k p e at_k hit rest len written ↦
      hits (suc k) p (e ∙ ap found (omega arith)) at_k hit rest len written
]
find_slot_lem test (peer p ∷ slots) i w = elim (Bool-cases (test p)) [
  | inl hit ↦ hits 0 p (rw hit (ap found (omega arith))) refl hit (rw hit) (omega arith) w
  | inr miss ↦ elim (find_slot_lem test slots (i + 1) w) [
    | misses e none_left ↦ misses (rw miss e) (rw miss none_left)
    | hits k p' e at_k hit rest len written ↦
        hits (suc k) p' (rw miss (e ∙ ap found (omega arith))) at_k hit (rw miss (ap (◌∷◌ p) rest))
          (omega arith) written
  ]
]

erase-absent :
    (test : Peer → Bool) (ps : List Peer) → Spec.find test ps ≡ none → Spec.erase test ps ≡ ps
unfolding Spec.find Spec.erase
erase-absent test [] h = refl
erase-absent test (p ∷ ps) h = ground (arith, erase-absent test ps)

delete_peer-absent :
    (t : Table) (id : ℕ)
    → find_slot (λ p. p.id == id) t.size t.peer_list 0 ≡ absent
    → delete_peer t id ≡ found t
unfolding delete_peer
delete_peer-absent t id e = rw (e, delete_peer)

delete_peer-found :
    (t : Table) (id k : ℕ)
    → find_slot (λ p. p.id == id) t.size t.peer_list 0 ≡ found k
    → delete_peer t id
      ≡ found (record t { peer_list = set t.peer_list k null; count = t.count - 1 })
unfolding delete_peer
delete_peer-found t id k e = rw (e, delete_peer)

-- A slot after delete_peer: as it was, or NULL where a peer with the id was.
abbrev pub IsKept : ℕ → Option Slot → Option Slot → Type 0
IsKept id old new =
    (new ≡ old) ⊎ ((p : Peer) × (old ≡ some (peer p)) × (p.id ≡ id) × (new ≡ some null))

cleared :
    (id : ℕ) (slots : List Slot) (k : ℕ) (p : Peer)
    → get_elem? slots k ≡ some (peer p)
    → p.id ≡ id
    → (i : ℕ) → IsKept id (get_elem? slots i) (get_elem? (set slots k null) i)
cleared id [] k p e h i = cc
cleared id (s ∷ slots) zero p e h zero = inr (p, e, h, refl)
cleared id (s ∷ slots) zero p e h (suc i) = inl refl
cleared id (s ∷ slots) (suc k) p e h zero = inl refl
cleared id (s ∷ slots) (suc k) p e h (suc i) = cleared id slots k p e h i

-- delete_peer on a table without uninitialised slots takes out the first peer with the id, if there is
-- one; each slot is as it was, or NULL where a peer with the id was; the size and the next id are as
-- they were; the result is valid, its count with it.
pub delete_peer_lem :
    (t : Table) (id : ℕ)
    → IsValid t
    → (r : Table) × (delete_peer t id ≡ found r)
      × IsValid r
      × (peers r.peer_list ≡ Spec.erase (λ p. p.id == id) (peers t.peer_list))
      × ((i : ℕ) → IsKept id (get_elem? t.peer_list i) (get_elem? r.peer_list i))
      × (r.size ≡ t.size)
      × (r.id_counter ≡ t.id_counter)
delete_peer_lem t id v = elim (find_slot_lem (λ p. p.id == id) t.peer_list 0 v.written) [
  | misses e none_left ↦ (
    t,
    delete_peer-absent t id (at_size ∙ e),
    v,
    sym (erase-absent (λ p. p.id == id) (peers t.peer_list) none_left),
    λ i. inl refl,
    refl,
    refl,
  )
  | hits k p e at_k hit rest len written ↦ (
    record t { peer_list = set t.peer_list k null; count = t.count - 1 },
    delete_peer-found t id k (at_size ∙ e ∙ ap found (omega arith)),
    record {
      sized = length-set t.peer_list k null ∙ v.sized;
      written = written;
      counted = omega (arith, v.counted, len);
    },
    rest,
    cleared id t.peer_list k p at_k ((==_iff p.id id).0 hit),
    refl,
    refl,
  )
]
  where
    at_size :
        find_slot (λ p. p.id == id) t.size t.peer_list 0
        ≡ find_slot (λ p. p.id == id) (length t.peer_list) t.peer_list 0
    at_size = ap (λ n. find_slot (λ p. p.id == id) n t.peer_list 0) (sym v.sized)
