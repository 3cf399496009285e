-- ===== src/PeerTable/Diff.antt =====
-- common/peer_table.c: diff_tables, with which a client compares its table with the tracker's.
use seven_deadly_syns.Prelude.{ℕ, zero, suc, List, [], ◌∷◌}
use seven_deadly_syns.PeerTable.{
  Slot, uninit, null, peer, Table, init, Outcome, fault, absent, found, copy_peer, get_peer_by_id,
}

-- One loop of diff_tables: the peers among the first `n` slots whose id `other` does not hold are copied.
unfoldable pub copy_missing : Table → ℕ → List Slot → Table → Outcome Table
unfolding get_peer_by_id copy_peer
copy_missing other zero slots t = found t
copy_missing other (suc n) [] t = fault
copy_missing other (suc n) (uninit ∷ slots) t = fault
copy_missing other (suc n) (null ∷ slots) t = copy_missing other n slots t
copy_missing other (suc n) (peer p ∷ slots) t = elim (get_peer_by_id other p.id) [
  | fault ↦ fault
  | found q ↦ copy_missing other n slots t
  | absent ↦ elim (copy_peer t p.id p.ip_addr p.socketfd) [
    | fault ↦ fault
    | absent ↦ fault
    | found (entry, t') ↦ copy_missing other n slots t'
  ]
]

-- diff_tables: the additions and the deletions. Both tables get the size of the new one.
unfoldable pub diff_tables : Table → Table → Outcome (Table × Table)
unfolding copy_missing init
diff_tables orig new = elim (copy_missing orig new.size new.peer_list (init new.size)) [
  | fault ↦ fault
  | absent ↦ absent
  | found added ↦ elim (copy_missing new orig.size orig.peer_list (init new.size)) [
    | fault ↦ fault
    | absent ↦ absent
    | found deleted ↦ found (added, deleted)
  ]
]
