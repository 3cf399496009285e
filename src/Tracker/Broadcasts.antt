-- ===== src/Tracker/Broadcasts.antt =====
-- The tracker's table of peers: who is in it, and who gets a broadcast.
use mathlib.Core.List.{Perm, perm_append_singleton}
use mathlib.Core.List.Perm
use seven_deadly_syns.Prelude.{
  ℕ, zero, suc, ◌+◌, ◌-◌, ◌<◌, ◌≡◌, ◌≢◌, refl, ap, ◌∙◌, true, false, ◌==◌, ◌&&◌, not, Option, none,
  some, List, [], ◌∷◌, ◌++◌, length, map, length-append, replicate, set, arith, Bool-cases, inl,
  inr,
}
use seven_deadly_syns.Queue.Spec
use seven_deadly_syns.FileSystem.Types.{FileSystem}
use seven_deadly_syns.FileTable.Peers.{lists}
use seven_deadly_syns.Tracker.{
  PeerIds, create_peer_table, is_id, contains_from, contains_peer, Place, present, placed, full,
  placed_behind, place, add_peer_to_table, free_slot, remove_peer_from_table, others, all_ids,
  lost_peer_broadcast, filesystem_update_broadcast, peer_removed, fs_update,
}

-- `numberOfEntries` counts the ids in the slots, of which there are some.
pub record IsCounted (t : PeerIds) : Type 0 where
  pub counted : t.number_of_entries ≡ length (all_ids t.peer_ids)
  pub positive : 0 < length t.peer_ids

-- The ids of the table but 0 and one peer's.
abbrev pub all_but : ℕ → PeerIds → List ℕ
all_but id t = Spec.filter (λ i. not (i == id) && not (i == 0)) (all_ids t.peer_ids)

others-filter :
    (from : ℕ) (slots : List (Option ℕ))
    → others from slots ≡ Spec.filter (λ i. not (i == from) && not (i == 0)) (all_ids slots)
unfolding others all_ids Spec.filter
others-filter from [] = refl
others-filter from (none ∷ slots) = others-filter from slots
others-filter from (some i ∷ slots) = ground (arith, others-filter from slots)

-- The broadcasts, on the ids of the table.
pub lost_peer_broadcast-all_but :
    (t : PeerIds) (id : ℕ)
    → lost_peer_broadcast t id ≡ map (λ to. peer_removed to id) (all_but id t)
unfolding lost_peer_broadcast
lost_peer_broadcast-all_but t id = ap (map (λ to. peer_removed to id)) (others-filter id t.peer_ids)

pub filesystem_update_broadcast-all_but :
    (t : PeerIds) (additions deletions : FileSystem) (originator : ℕ)
    → filesystem_update_broadcast t additions deletions originator
      ≡ map (λ to. fs_update to originator additions deletions) (all_but originator t)
unfolding filesystem_update_broadcast
filesystem_update_broadcast-all_but t additions deletions originator =
    ap (map (λ to. fs_update to originator additions deletions))
      (others-filter originator t.peer_ids)

all_ids-append : (xs ys : List (Option ℕ)) → all_ids (xs ++ ys) ≡ all_ids xs ++ all_ids ys
unfolding all_ids
all_ids-append [] ys = refl
all_ids-append (none ∷ xs) ys = all_ids-append xs ys
all_ids-append (some i ∷ xs) ys = ap (◌∷◌ i) (all_ids-append xs ys)

all_ids-replicate : (n : ℕ) → all_ids (replicate n none) ≡ []
unfolding all_ids
all_ids-replicate zero = refl
all_ids-replicate (suc n) = all_ids-replicate n

-- The slots hold one id more than others.
record OneMore (id : ℕ) (slots left : List (Option ℕ)) : Type 0 where
  pub ids : Perm (all_ids left) (id ∷ all_ids slots)
  pub count : length (all_ids left) ≡ length (all_ids slots) + 1
  pub room : 0 < length slots → 0 < length left

-- What the loop of addPeerToTable does with a new id.
abbrev IsPlace : ℕ → List (Option ℕ) → Place → Type 0
IsPlace id slots present = ⊥
IsPlace id slots (placed left) = OneMore id slots left
IsPlace id slots full = Unit {0}

OneMore-behind :
    (id i : ℕ) (slots left : List (Option ℕ))
    → OneMore id slots left
    → OneMore id (some i ∷ slots) (some i ∷ left)
unfolding all_ids
OneMore-behind id i slots left h = record {
  ids = Perm.trans (Perm.cons i h.ids) (Perm.swap id i (all_ids slots));
  count = omega (arith, h.count);
  room = λ r. omega arith;
}

IsPlace-behind :
    (id i : ℕ) (slots : List (Option ℕ)) (r : Place)
    → IsPlace id slots r
    → IsPlace id (some i ∷ slots) (placed_behind (some i) r)
unfolding placed_behind
IsPlace-behind id i slots present h = h
IsPlace-behind id i slots (placed left) h = OneMore-behind id i slots left h
IsPlace-behind id i slots full h = tt

place-IsPlace :
    (id : ℕ) (slots : List (Option ℕ))
    → lists id (all_ids slots) ≡ false
    → IsPlace id slots (place id slots)
unfolding place all_ids
place-IsPlace id [] h = tt
place-IsPlace id (none ∷ slots) h = record {
  ids = Perm.refl (id ∷ all_ids slots);
  count = omega arith;
  room = λ r. omega arith;
}
place-IsPlace id (some i ∷ slots) h = elim (Bool-cases (i == id)) [
  | inl hit ↦ absurd (ground (arith, hit, h))
  | inr miss ↦
      rw (miss, place)
        (IsPlace-behind id i slots (place id slots)
          (place-IsPlace id slots (ground (arith, miss, h))))
]

set-behind :
    (xs : List (Option ℕ)) (n : ℕ) (id : ℕ)
    → 0 < n
    → set (xs ++ replicate n none) (length xs) (some id) ≡ xs ++ (some id ∷ replicate (n - 1) none)
set-behind [] zero id h = absurd (omega arith)
set-behind [] (suc n) id h =
    let e : n ≡ suc n - 1 = omega arith in ap (λ k. some id ∷ replicate k none) e
set-behind (x ∷ xs) n id h = ap (◌∷◌ x) (set-behind xs n id h)

double-OneMore :
    (id : ℕ) (slots : List (Option ℕ))
    → 0 < length slots
    → OneMore id slots (set (slots ++ replicate (length slots) none) (length slots) (some id))
unfolding all_ids
double-OneMore id slots h = rw (set-behind slots (length slots) id h) (record {
  ids = rw ids_are (perm_append_singleton id (all_ids slots));
  count = rw ids_are (length-append (all_ids slots) (id ∷ []));
  room = λ r. omega (arith, length-append slots (some id ∷ replicate (length slots - 1) none));
})
  where
    ids_are :
        all_ids (slots ++ (some id ∷ replicate (length slots - 1) none))
        ≡ all_ids slots ++ (id ∷ [])
    ids_are =
        all_ids-append slots (some id ∷ replicate (length slots - 1) none)
        ∙ ap (λ xs. all_ids slots ++ (id ∷ xs)) (all_ids-replicate (length slots - 1))

-- addPeerToTable with an id that is not in the table: it returns 1, the table then holds this id and those
-- that it held, and numberOfEntries is their count.
pub add_peer_to_table_lem :
    (t : PeerIds) (id : ℕ)
    → IsCounted t
    → lists id (all_ids t.peer_ids) ≡ false
    → ((add_peer_to_table t id).0 ≡ true)
      × Perm (all_ids (add_peer_to_table t id).1.peer_ids) (id ∷ all_ids t.peer_ids)
      × IsCounted (add_peer_to_table t id).1
unfolding add_peer_to_table
add_peer_to_table_lem t id v h = by_place (place id t.peer_ids) (place-IsPlace id t.peer_ids h) refl
  where
    by_place :
        (r : Place)
        → IsPlace id t.peer_ids r
        → place id t.peer_ids ≡ r
        → ((add_peer_to_table t id).0 ≡ true)
          × Perm (all_ids (add_peer_to_table t id).1.peer_ids) (id ∷ all_ids t.peer_ids)
          × IsCounted (add_peer_to_table t id).1
    by_place present p e = absurd p
    by_place (placed left) p e =
        rw (e, add_peer_to_table)
          (
            refl,
            p.ids,
            record { counted = omega (arith, v.counted, p.count); positive = p.room v.positive },
          )
    by_place full p e =
        let q = double-OneMore id t.peer_ids v.positive in
        rw (e, add_peer_to_table)
          (
            refl,
            q.ids,
            record { counted = omega (arith, v.counted, q.count); positive = q.room v.positive },
          )

-- What the loop of removePeerFromTable does with an id that is in the table.
free_slot-lists :
    (id : ℕ) (slots : List (Option ℕ))
    → lists id (all_ids slots) ≡ true
    → (left : List (Option ℕ)) × (free_slot id slots ≡ some left)
      × OneMore id left slots
      × (length left ≡ length slots)
unfolding free_slot all_ids is_id
free_slot-lists id [] h = cc
free_slot-lists id (none ∷ slots) h =
    let (left, e, m, n) = free_slot-lists id slots h in
    (
      none ∷ left,
      ground (arith, e),
      record { ids = m.ids; count = m.count; room = λ r. omega arith },
      omega (arith, n),
    )
free_slot-lists id (some i ∷ slots) h = elim (Bool-cases (i == id)) [
  | inl hit ↦
      let same : i ≡ id = ground (arith, hit) in
      (
        none ∷ slots,
        ground (arith, hit),
        record {
          ids = rw same (Perm.refl (id ∷ all_ids slots));
          count = omega arith;
          room = λ r. omega arith;
        },
        omega arith,
      )
  | inr miss ↦
      let (left, e, m, n) = free_slot-lists id slots (ground (arith, miss, h)) in
      (some i ∷ left, ground (arith, miss, e), OneMore-behind id i left slots m, omega (arith, n))
]

-- removePeerFromTable with an id of the table: it returns 1, exactly this id is gone once, and
-- numberOfEntries is the count of those that are left.
pub remove_peer_from_table_lem :
    (t : PeerIds) (id : ℕ)
    → IsCounted t
    → lists id (all_ids t.peer_ids) ≡ true
    → (r : PeerIds) × (remove_peer_from_table t id ≡ some r)
      × Perm (all_ids t.peer_ids) (id ∷ all_ids r.peer_ids)
      × IsCounted r
unfolding remove_peer_from_table
remove_peer_from_table_lem t id v h =
    let (left, e, m, n) = free_slot-lists id t.peer_ids h in
    (
      record { number_of_entries = t.number_of_entries - 1; peer_ids = left },
      rw (e, remove_peer_from_table) refl,
      m.ids,
      record {
        counted = omega (arith, v.counted, m.count);
        positive = omega (arith, n, v.positive);
      },
    )

-- After two peers have come and the first of them has gone, containsPeer does not find the second one,
-- although the table holds it.
pub contains_peer_forgets :
    (p q : ℕ)
    → 0 < q
    → p ≢ q
    → let t = (add_peer_to_table (add_peer_to_table create_peer_table p).1 q).1 in
      (r : PeerIds) × (remove_peer_from_table t p ≡ some r)
      × (all_ids r.peer_ids ≡ q ∷ [])
      × (contains_peer r q ≡ some false)
unfolding add_peer_to_table create_peer_table place placed_behind remove_peer_from_table free_slot
    is_id all_ids contains_peer contains_from
contains_peer_forgets p q h ne = (
  record { number_of_entries = 1; peer_ids = none ∷ some q ∷ replicate 14 none },
  ground (arith, ne, after),
  refl,
  ground (arith, h),
)
  where
    after : (p == q) ≡ false
    after = ground (arith, ne)
