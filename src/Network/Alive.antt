-- ===== src/Network/Alive.antt =====
-- tracker/network_tracker.c: check_liveliness, which looks for clients that have sent no heartbeat.
use seven_deadly_syns.Prelude.{
  ℕ, zero, suc, ◌+◌, ◌≤◌, ◌≡◌, refl, sym, ap, ◌∙◌, ltb, true, false, none, some, List, [], ◌∷◌,
  length, get_elem?, arith,
}
use seven_deadly_syns.PeerTable.{
  Peer, Slot, uninit, null, peer, Table, Outcome, fault, absent, found, delete_peer,
}
use seven_deadly_syns.PeerTable.Lookup.{IsWritten, IsValid}

-- DIASTOLE
abbrev pub diastole : ℕ
diastole = 10

unfoldable pub also_lost : ℕ → Outcome (List ℕ × Table) → Outcome (List ℕ × Table)
also_lost id fault = fault
also_lost id absent = absent
also_lost id (found (ids, t)) = found (id ∷ ids, t)

-- The loop, from slot `i` on with `n` slots left: the ids that notify_client_lost is called with, and the
-- table. `time_last_alive - current_time > DIASTOLE` is over time_t.
unfoldable pub alive_from : ℕ → ℕ → ℕ → Table → Outcome (List ℕ × Table)
unfolding delete_peer also_lost
alive_from current_time zero i t = found ([], t)
alive_from current_time (suc n) i t = elim (get_elem? t.peer_list i) [
  | none ↦ fault
  | some uninit ↦ fault
  | some null ↦ alive_from current_time n (i + 1) t
  | some (peer p) ↦ elim (ltb (current_time + diastole) p.time_last_alive) [
    | true ↦ elim (delete_peer t p.id) [
      | fault ↦ fault
      | absent ↦ fault
      | found t' ↦ also_lost p.id (alive_from current_time n (i + 1) t')
    ]
    | false ↦ alive_from current_time n (i + 1) t
  ]
]

-- check_liveliness
unfoldable pub check_liveliness : ℕ → Table → Outcome (List ℕ × Table)
unfolding alive_from
check_liveliness current_time t = alive_from current_time t.size 0 t

-- No heartbeat comes from the future.
abbrev pub AreHeard : ℕ → List Slot → Type 0
AreHeard now [] = Unit {0}
AreHeard now (uninit ∷ slots) = AreHeard now slots
AreHeard now (null ∷ slots) = AreHeard now slots
AreHeard now (peer p ∷ slots) = (p.time_last_alive ≤ now) × AreHeard now slots

-- The slots from `i` on.
abbrev Behind : List Slot → ℕ → List Slot → Type 0
Behind all i slots = (k : ℕ) → get_elem? all (i + k) ≡ get_elem? slots k

at_slot :
    (all : List Slot) (i : ℕ) (s : Slot) (slots : List Slot)
    → Behind all i (s ∷ slots)
    → get_elem? all i ≡ some s
at_slot all i s slots b = let same : i ≡ i + 0 = omega arith in ap (get_elem? all) same ∙ b 0

next_slots :
    (all : List Slot) (i : ℕ) (s : Slot) (slots : List Slot)
    → Behind all i (s ∷ slots)
    → Behind all (i + 1) slots
next_slots all i s slots b k =
    let same : i + 1 + k ≡ i + suc k = omega arith in ap (get_elem? all) same ∙ b (suc k)

skip_null :
    (now n i : ℕ) (t : Table)
    → get_elem? t.peer_list i ≡ some null
    → alive_from now (suc n) i t ≡ alive_from now n (i + 1) t
unfolding alive_from
skip_null now n i t e = rw (e, alive_from) refl

skip_peer :
    (now n i : ℕ) (p : Peer) (t : Table)
    → get_elem? t.peer_list i ≡ some (peer p)
    → p.time_last_alive ≤ now
    → alive_from now (suc n) i t ≡ alive_from now n (i + 1) t
unfolding alive_from
skip_peer now n i p t e h =
    let recent : ltb (now + diastole) p.time_last_alive ≡ false = ground (arith, h) in
    rw (e, alive_from) (rw (recent, alive_from) refl)

alive_from-heard :
    (now i : ℕ) (slots : List Slot) (t : Table)
    → Behind t.peer_list i slots
    → IsWritten slots
    → AreHeard now slots
    → alive_from now (length slots) i t ≡ found ([], t)
unfolding alive_from
alive_from-heard now i [] t b w h = refl
alive_from-heard now i (uninit ∷ slots) t b w h = absurd w
alive_from-heard now i (null ∷ slots) t b w h =
    skip_null now (length slots) i t (at_slot t.peer_list i null slots b)
    ∙ alive_from-heard now (i + 1) slots t (next_slots t.peer_list i null slots b) w h
alive_from-heard now i (peer p ∷ slots) t b w h =
    skip_peer now (length slots) i p t (at_slot t.peer_list i (peer p) slots b) h.0
    ∙ alive_from-heard now (i + 1) slots t (next_slots t.peer_list i (peer p) slots b) w h.1

-- check_liveliness on a valid table gives no client up, however long ago each was heard: it takes the
-- current time from the last one, which is not later.
pub check_liveliness_lem :
    (current_time : ℕ) (t : Table)
    → IsValid t
    → AreHeard current_time t.peer_list
    → check_liveliness current_time t ≡ found ([], t)
unfolding check_liveliness
check_liveliness_lem current_time t v h =
    ap (λ n. alive_from current_time n 0 t) (sym v.sized)
    ∙ alive_from-heard current_time 0 t.peer_list t
        (λ k. let e : 0 + k ≡ k = omega arith in ap (get_elem? t.peer_list) e) v.written h
