-- ===== src/Tracker/Lost.antt =====
-- A lost client, handled by the tracker.
use mathlib.Core.List.{Perm}
use mathlib.Core.Path.{subst}
use seven_deadly_syns.Prelude.{
  ℕ, zero, suc, ◌+◌, ◌≤◌, ◌<◌, ◌≡◌, refl, sym, ap, ◌∙◌, Bool, true, false, ◌==◌, ◌&&◌, not,
  if◌then◌else◌, some, List, [], ◌∷◌, ◌++◌, map, length, drop, get_elem?, arith, Bool-cases, inl,
  inr,
}
use seven_deadly_syns.Queue.Spec
use seven_deadly_syns.FileSystem.Types.{Name, FileSystem}
use seven_deadly_syns.HashTable.Buckets.{flat}
use seven_deadly_syns.HashTable.Lookup.{elements}
use seven_deadly_syns.HashTable.Iterate.{iterate, iterate-elements}
use seven_deadly_syns.FileTable.{
  FileTableEntry, FileTable, entry_at, get_peers, get_num_chunks, without_peer, remove_peer,
}
use seven_deadly_syns.FileTable.Peers.{
  lists, map_option, peers_of, get_peers-entry, peers_of-some, entry_at-remove_peer,
}
use seven_deadly_syns.Tracker.{
  PeerIds, Tracker, peer_removed, all_ids, nobody_has, files_to_prune, remove_peer_from_table,
  lost_client,
}
use seven_deadly_syns.Tracker.Pruned.{
  AreRemoved, without_files, masters, prune_filesystem-AreRemoved,
}
use seven_deadly_syns.Tracker.Broadcasts.{
  IsCounted, all_but, lost_peer_broadcast-all_but, remove_peer_from_table_lem,
}

-- Does nobody have one of these chunks?
abbrev pub starved : List (List ℕ) → Bool
starved [] = false
starved ([] ∷ cs) = true
starved ((p ∷ ps) ∷ cs) = starved cs

-- The paths of the files of which nobody has some chunk.
abbrev pub starved_paths : List FileTableEntry → List Name
starved_paths [] = []
starved_paths (e ∷ es) = if starved e.chunks then e.path ∷ starved_paths es else starved_paths es

-- Each of these entries is the one that is found with its path.
abbrev pub AreFound : FileTable → List FileTableEntry → Type 0
AreFound ft [] = Unit {0}
AreFound ft (e ∷ es) = (entry_at ft e.path ≡ some e) × AreFound ft es

record At (cs : List (List ℕ)) (i : ℕ) : Type 0 where
  owners : List ℕ
  there : get_elem? cs i ≡ some owners
  split : drop i cs ≡ owners ∷ drop (i + 1) cs

drop-At : (cs : List (List ℕ)) (i : ℕ) → i < length cs → At cs i
drop-At [] i h = absurd (omega arith)
drop-At (c ∷ cs) zero h = record { owners = c; there = refl; split = refl }
drop-At (c ∷ cs) (suc i) h =
    let r = drop-At cs i (omega arith) in
    record {
      owners = r.owners;
      there = r.there;
      split =
          r.split
          ∙ (let e : suc (i + 1) ≡ suc i + 1 = omega arith in
              ap (λ k. r.owners ∷ drop k (c ∷ cs)) e);
    }

drop-all : (cs : List (List ℕ)) (i : ℕ) → length cs ≤ i → drop i cs ≡ []
drop-all [] zero h = refl
drop-all [] (suc i) h = refl
drop-all (c ∷ cs) zero h = absurd (omega arith)
drop-all (c ∷ cs) (suc i) h = drop-all cs i (omega arith)

nobody_has-starved :
    (ft : FileTable) (e : FileTableEntry) (i n : ℕ)
    → entry_at ft e.path ≡ some e
    → i + n ≡ length e.chunks
    → nobody_has ft e.path i n ≡ some (starved (drop i e.chunks))
unfolding nobody_has
nobody_has-starved ft e i zero h room =
    ap (λ cs. some (starved cs)) (sym (drop-all e.chunks i (omega arith)))
nobody_has-starved ft e i (suc n) h room =
    let at = drop-At e.chunks i (omega arith) in
    let now : get_peers ft e.path i ≡ some (some at.owners) =
      get_peers-entry ft e.path i
      ∙ ap (λ o. peers_of o i) h
      ∙ peers_of-some e i at.owners at.there in
    by_owners at.owners now (nobody_has-starved ft e (i + 1) n h (omega arith))
    ∙ ap (λ cs. some (starved cs)) (sym at.split)
  where
    by_owners :
        (ps : List ℕ)
        → get_peers ft e.path i ≡ some (some ps)
        → nobody_has ft e.path (i + 1) n ≡ some (starved (drop (i + 1) e.chunks))
        → nobody_has ft e.path i (suc n) ≡ some (starved (ps ∷ drop (i + 1) e.chunks))
    by_owners [] now rest = rw (now, nobody_has) refl
    by_owners (p ∷ ps) now rest = rw (now, rest, nobody_has) refl

files_to_prune-starved :
    (ft : FileTable) (es : List FileTableEntry)
    → AreFound ft es
    → files_to_prune ft es ≡ some (starved_paths es)
unfolding files_to_prune get_num_chunks
files_to_prune-starved ft [] h = refl
files_to_prune-starved ft (e ∷ es) h =
    let count : get_num_chunks ft e.path ≡ some (length e.chunks) = rw (h.0, get_num_chunks) refl in
    let unowned = nobody_has-starved ft e 0 (length e.chunks) h.0 (omega arith) in
    let more = files_to_prune-starved ft es h.1 in
    elim (Bool-cases (starved e.chunks)) [
      | inl hit ↦ rw (hit, count, unowned, more, files_to_prune) (ground (arith, hit))
      | inr miss ↦ rw (miss, count, unowned, more, files_to_prune) (ground (arith, miss))
    ]

-- The scan of prune_filesystem, on a file table in which each entry is the one found with its path: no
-- assert fails, and the files that it chooses are exactly those of which nobody has some chunk.
pub files_to_prune_lem :
    (fuel : ℕ) (ft : FileTable)
    → AreFound ft (elements ft)
    → length (elements ft) < fuel
    → files_to_prune ft (iterate fuel ft) ≡ some (starved_paths (elements ft))
files_to_prune_lem fuel ft found enough =
    ap (files_to_prune ft) (iterate-elements fuel ft enough)
    ∙ files_to_prune-starved ft (elements ft) found

-- The table after the loss of a peer.
elements-remove_peer :
    (ft : FileTable) (id : ℕ) → elements (remove_peer ft id) ≡ map (without_peer id) (elements ft)
unfolding elements remove_peer flat
elements-remove_peer ft id = flat-map ft.table
  where
    map-append :
        (xs ys : List FileTableEntry)
        → map (without_peer id) (xs ++ ys) ≡ map (without_peer id) xs ++ map (without_peer id) ys
    map-append [] ys = refl
    map-append (x ∷ xs) ys = ap (◌∷◌ (without_peer id x)) (map-append xs ys)

    flat-map :
        (bs : List (List FileTableEntry))
        → flat (map (map (without_peer id)) bs) ≡ map (without_peer id) (flat bs)
    flat-map [] = refl
    flat-map (b ∷ bs) =
        ap (◌++◌ (map (without_peer id) b)) (flat-map bs) ∙ sym (map-append b (flat bs))

remove_peer-AreFound :
    (ft : FileTable) (id : ℕ) (es : List FileTableEntry)
    → AreFound ft es
    → AreFound (remove_peer ft id) (map (without_peer id) es)
remove_peer-AreFound ft id [] h = tt
remove_peer-AreFound ft id (e ∷ es) h =
    (entry_at-remove_peer ft id (without_peer id e).path ∙ same, remove_peer-AreFound ft id es h.1)
  where
    same :
        map_option (without_peer id) (entry_at ft (without_peer id e).path)
        ≡ some (without_peer id e)
    same = unfold without_peer in ap (map_option (without_peer id)) h.0

length-map_entries :
    (f : FileTableEntry → FileTableEntry) (es : List FileTableEntry) → length (map f es) ≡ length es
length-map_entries f [] = refl
length-map_entries f (e ∷ es) = omega (arith, length-map_entries f es)

-- The loss of a peer of the table, when each entry of the file table is the one found with its path and
-- the files of which nobody else has some chunk can be taken out of the tree in turn, with more fuel than
-- there are entries: no assert fails;
-- the peer is gone once from the table of peers; the tree is what taking these files out gives; the file table is
-- without the peer and without these files; each id left but 0 and the peer's gets one message that the peer is
-- gone, in the order of the table, and then, if a file was taken out, each id left gets the tree.
pub lost_client_lem :
    (fuel : ℕ) (t : Tracker) (id : ℕ) (fs' : FileSystem)
    → IsCounted t.peer_table
    → lists id (all_ids t.peer_table.peer_ids) ≡ true
    → AreFound t.filetable (elements t.filetable)
    → length (elements t.filetable) < fuel
    → AreRemoved fuel (starved_paths (map (without_peer id) (elements t.filetable))) t.fs fs'
    → let paths = starved_paths (map (without_peer id) (elements t.filetable)) in
      (peers : PeerIds) × (lost_client fuel t id
        ≡ some (
          record {
            fs = fs';
            filetable = without_files paths (remove_peer t.filetable id);
            peer_table = peers;
          },
          map
                (λ to. peer_removed to id)
                (Spec.filter (λ i. not (i == id) && not (i == 0)) (all_ids peers.peer_ids))
              ++ masters paths fs' (all_ids peers.peer_ids),
        ))
      × Perm (all_ids t.peer_table.peer_ids) (id ∷ all_ids peers.peer_ids)
      × IsCounted peers
lost_client_lem fuel t id fs' v known found enough removable =
    let (peers, removed, same, counted) = remove_peer_from_table_lem t.peer_table id v known in
    (peers, runs peers removed, same, counted)
  where
    paths : List Name
    paths = starved_paths (map (without_peer id) (elements t.filetable))

    chosen :
        files_to_prune (remove_peer t.filetable id) (iterate fuel (remove_peer t.filetable id))
        ≡ some paths
    chosen =
        let after = elements-remove_peer t.filetable id in
        files_to_prune_lem fuel (remove_peer t.filetable id)
          (subst (AreFound (remove_peer t.filetable id)) (sym after)
            (remove_peer-AreFound t.filetable id (elements t.filetable) found))
          (omega
            (arith, ap length after, length-map_entries (without_peer id) (elements t.filetable)))
        ∙ ap (λ es. some (starved_paths es)) after

    runs :
        (peers : PeerIds)
        → remove_peer_from_table t.peer_table id ≡ some peers
        → lost_client fuel t id
          ≡ some (
            record {
              fs = fs';
              filetable = without_files paths (remove_peer t.filetable id);
              peer_table = peers;
            },
            map (λ to. peer_removed to id) (all_but id peers)
                ++ masters paths fs' (all_ids peers.peer_ids),
          )
    runs peers e =
        let t' : Tracker = record t {
          peer_table = peers;
          filetable = remove_peer t.filetable id;
        } in
        unfold lost_client in
        rw (e, lost_client)
          (rw (prune_filesystem-AreRemoved fuel t' paths fs' chosen removable, lost_client)
            (ap
              (λ sent. some (
                record t' { fs = fs'; filetable = without_files paths t'.filetable },
                sent ++ masters paths fs' (all_ids peers.peer_ids),
              ))
              (lost_peer_broadcast-all_but peers id)))
