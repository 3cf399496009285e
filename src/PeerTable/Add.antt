-- ===== src/PeerTable/Add.antt =====
-- add_peer: which entry it makes, and what growth does.
use mathlib.Core.Path.{subst₂}
use mathlib.Core.List.{Perm, perm_middle}
use seven_deadly_syns.Prelude.{
  ℕ, zero, suc, ◌+◌, ◌-◌, ◌*◌, ◌≤◌, ◌<◌, ◌≡◌, ◌≢◌, refl, sym, ap, ◌∙◌, Option, some, List, [], ◌∷◌,
  ◌++◌, length, length-append, length-set, replicate, set, arith,
}
use seven_deadly_syns.PeerTable.{
  Peer, Slot, uninit, null, peer, Table, Outcome, fault, found, first_free, grow, add_peer,
}
use seven_deadly_syns.PeerTable.Lookup.{peers, IsWritten, IsValid}

-- The first free slot of slots that are all written and not all taken.
pub record Free (slots : List Slot) (i : ℕ) (o : Outcome ℕ) : Type 0 where
  pub index : ℕ
  pub at : o ≡ found (i + index)
  pub before : List Peer
  pub behind : List Peer
  pub split : peers slots ≡ before ++ behind
  pub filled : (p : Peer) → peers (set slots index (peer p)) ≡ before ++ (p ∷ behind)
  pub written : (p : Peer) → IsWritten (set slots index (peer p))

pub first_free_lem :
    (slots : List Slot) (i : ℕ)
    → IsWritten slots
    → length (peers slots) < length slots
    → Free slots i (first_free (length slots) slots i)
unfolding first_free peers
first_free_lem [] i w h = absurd (omega arith)
first_free_lem (uninit ∷ slots) i w h = absurd w
first_free_lem (null ∷ slots) i w h = record {
  index = 0;
  at = ap found (omega arith);
  before = [];
  behind = peers slots;
  split = refl;
  filled = λ p. refl;
  written = λ p. w;
}
first_free_lem (peer q ∷ slots) i w h =
    let f = first_free_lem slots (i + 1) w (omega arith) in
    record {
      index = suc f.index;
      at = f.at ∙ ap found (omega arith);
      before = q ∷ f.before;
      behind = f.behind;
      split = ap (◌∷◌ q) f.split;
      filled = λ p. ap (◌∷◌ q) (f.filled p);
      written = f.written;
    }

length-peers-le : (slots : List Slot) → length (peers slots) ≤ length slots
unfolding peers
length-peers-le [] = omega arith
length-peers-le (uninit ∷ slots) = omega (arith, length-peers-le slots)
length-peers-le (null ∷ slots) = omega (arith, length-peers-le slots)
length-peers-le (peer q ∷ slots) = omega (arith, length-peers-le slots)

-- All slots of the list are taken, and a slot behind them was never written.
first_free-full :
    (slots : List Slot) (extra m i : ℕ)
    → IsWritten slots
    → length (peers slots) ≡ length slots
    → m ≡ length slots + suc extra
    → first_free m (slots ++ replicate (suc extra) uninit) i ≡ fault
unfolding first_free peers
first_free-full [] extra zero i w h e = absurd (omega arith)
first_free-full [] extra (suc m) i w h e = refl
first_free-full (uninit ∷ slots) extra m i w h e = absurd w
first_free-full (null ∷ slots) extra m i w h e = absurd (omega (arith, length-peers-le slots))
first_free-full (peer q ∷ slots) extra zero i w h e = absurd (omega arith)
first_free-full (peer q ∷ slots) extra (suc m) i w h e =
    first_free-full slots extra m (i + 1) w (omega arith) (omega arith)

-- The entry that add_peer makes.
abbrev pub entry : Table → List ℕ → Option ℕ → ℕ → Peer
entry t ip fd now = record { ip_addr = ip; socketfd = fd; id = t.id_counter; time_last_alive = now }

abbrev pub with_entry : Table → ℕ → Peer → Table
with_entry t i p = record t {
  peer_list = set t.peer_list i (peer p);
  id_counter = t.id_counter + 1;
  count = t.count + 1;
}

add_peer-found :
    (t : Table) (ip : List ℕ) (fd : Option ℕ) (now i : ℕ)
    → first_free t.size t.peer_list 0 ≡ found i
    → add_peer t ip fd now
      ≡ found (some (entry t ip fd now), grow (with_entry t i (entry t ip fd now)))
unfolding add_peer
add_peer-found t ip fd now i e = rw (e, add_peer)

-- The table before growth.
record Entered (t : Table) (p : Peer) (r : Table) : Type 0 where
  valid : IsValid r
  same_peers : Perm (peers r.peer_list) (p ∷ peers t.peer_list)
  one_more : r.count ≡ t.count + 1

with_entry-Entered :
    (t : Table) (p : Peer)
    → IsValid t
    → t.count < t.size
    → (i : ℕ) × (first_free t.size t.peer_list 0 ≡ found i) × Entered t p (with_entry t i p)
with_entry-Entered t p v h =
    let f = first_free_lem t.peer_list 0 v.written (omega (arith, v.sized, v.counted)) in
    let len : length (peers (set t.peer_list f.index (peer p))) ≡ length (peers t.peer_list) + 1 =
      omega (
        arith,
        ap length (f.filled p),
        ap length f.split,
        length-append f.before (p ∷ f.behind),
        length-append f.before f.behind,
      ) in
    (
      f.index,
      ap (λ n. first_free n t.peer_list 0) (sym v.sized) ∙ f.at ∙ ap found (omega arith),
      record {
        valid = record {
          sized = length-set t.peer_list f.index (peer p) ∙ v.sized;
          written = f.written p;
          counted = omega (arith, v.counted, len);
        };
        same_peers =
            subst₂ Perm (sym (f.filled p)) (ap (◌∷◌ p) (sym f.split))
              (perm_middle f.before f.behind);
        one_more = refl;
      },
    )

grow-room : (t : Table) → t.count ≢ t.size → grow t ≡ t
unfolding grow
grow-room t ne = ground arith

grow-full :
    (t : Table)
    → t.count ≡ t.size
    → grow t ≡ record t { size = t.size * 2; peer_list = t.peer_list ++ replicate t.size uninit }
unfolding grow
grow-full t e = ground arith

-- What add_peer does to a valid table with more than one free slot: the result is valid, and holds the
-- new entry, with the next id, besides the peers that were there.
pub add_peer_lem :
    (t : Table) (ip : List ℕ) (fd : Option ℕ) (now : ℕ)
    → IsValid t
    → t.count + 1 < t.size
    → (r : Table) × (add_peer t ip fd now ≡ found (some (entry t ip fd now), r))
      × IsValid r
      × Perm (peers r.peer_list) (entry t ip fd now ∷ peers t.peer_list)
      × (r.id_counter ≡ t.id_counter + 1)
add_peer_lem t ip fd now v h =
    let p = entry t ip fd now in
    let (i, free, e) = with_entry-Entered t p v (omega arith) in
    (
      with_entry t i p,
      add_peer-found t ip fd now i free
          ∙ ap (λ x. found (some p, x)) (grow-room (with_entry t i p) (omega arith)),
      e.valid,
      e.same_peers,
      refl,
    )

add_peer-fault :
    (t : Table) (ip : List ℕ) (fd : Option ℕ) (now : ℕ)
    → first_free t.size t.peer_list 0 ≡ fault
    → add_peer t ip fd now ≡ fault
unfolding add_peer
add_peer-fault t ip fd now e = rw (e, add_peer)

first_free-grown :
    (t : Table)
    → IsValid t
    → t.count ≡ t.size
    → 0 < t.size
    → first_free (t.size * 2) (t.peer_list ++ replicate t.size uninit) 0 ≡ fault
first_free-grown t v full pos =
    let e : t.size ≡ suc (t.size - 1) = omega arith in
    ap (λ n. first_free (t.size * 2) (t.peer_list ++ replicate n uninit) 0) e
    ∙ first_free-full t.peer_list (t.size - 1) (t.size * 2) 0 v.written
        (omega (arith, v.counted, v.sized)) (omega (arith, v.sized))

-- With one free slot left in a valid table add_peer doubles it, and the next call of add_peer reads a
-- pointer that was never written.
pub add_peer_fault :
    (t : Table) (ip ip' : List ℕ) (fd fd' : Option ℕ) (now now' : ℕ)
    → IsValid t
    → t.count + 1 ≡ t.size
    → (r : Table) × (add_peer t ip fd now ≡ found (some (entry t ip fd now), r))
      × (add_peer r ip' fd' now' ≡ fault)
add_peer_fault t ip ip' fd fd' now now' v h =
    let p = entry t ip fd now in
    let (i, free, e) = with_entry-Entered t p v (omega arith) in
    let u : Table = with_entry t i p in
    let r : Table = record u {
      size = t.size * 2;
      peer_list = u.peer_list ++ replicate t.size uninit;
    } in
    (
      r,
      add_peer-found t ip fd now i free ∙ ap (λ x. found (some p, x)) (grow-full u h),
      add_peer-fault r ip' fd' now' (first_free-grown u e.valid h (omega arith)),
    )
