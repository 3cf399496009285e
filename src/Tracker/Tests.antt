-- ===== src/Tracker/Tests.antt =====
-- The theorems of Tracker at a tracker with three peers.
use mathlib.Core.List.{Perm}
use mathlib.Core.Path.{subst}
use seven_deadly_syns.Prelude.{
  ◌<◌, ◌≡◌, refl, sym, true, false, ◌==◌, ◌&&◌, not, none, some, List, [], ◌∷◌, ◌++◌, map, length,
  arith,
}
use seven_deadly_syns.Queue.Spec
use seven_deadly_syns.FileSystem.Types.{FileSystem, folder, nil, name_eq}
use seven_deadly_syns.FileSystem.Components.{filesystem_remove_file_at_path}
use seven_deadly_syns.FileSystem.OneFile.{tree}
use seven_deadly_syns.HashTable.{get_element, bucket, bucket_search}
use seven_deadly_syns.HashTable.Lookup.{elements}
use seven_deadly_syns.HashTable.Iterate.{iterate}
use seven_deadly_syns.FileTable.{FileTableEntry, entry_at, hash, equals, without_peer, remove_peer}
use seven_deadly_syns.FileTable.Hash.{hash_pjw}
use seven_deadly_syns.FileTable.Peers.{lists}
use seven_deadly_syns.Tracker.{
  PeerIds, create_peer_table, contains_peer, add_peer_to_table, remove_peer_from_table, all_ids,
  Tracker, peer_removed, files_to_prune, lost_client,
}
use seven_deadly_syns.Tracker.Broadcasts.{IsCounted, add_peer_to_table_lem, contains_peer_forgets}
use seven_deadly_syns.Tracker.Pruned.{AreRemoved, without_files, masters}
use seven_deadly_syns.Tracker.Lost.{starved_paths, AreFound, files_to_prune_lem, lost_client_lem}

-- The one chunk of `a` is with the peers 4 and 6.
abbrev a_entry : FileTableEntry
a_entry = record {
  path = b'/' ∷ b'a' ∷ [];
  file = none;
  chunks = (4 ∷ 6 ∷ []) ∷ [];
  work_queue = [];
  outstanding_requests = [];
}

abbrev three_peers : Tracker
three_peers = record {
  fs = tree 5;
  filetable = record { table = (a_entry ∷ []) ∷ []; tablesize = 1 };
  peer_table = record { number_of_entries = 3; peer_ids = some 4 ∷ none ∷ some 6 ∷ some 7 ∷ [] };
}

three_peers-IsCounted : IsCounted three_peers.peer_table
unfolding all_ids
three_peers-IsCounted = record { counted = omega arith; positive = omega arith }

six_known : lists 6 (all_ids three_peers.peer_table.peer_ids) ≡ true
unfolding all_ids
six_known = refl

nine_unknown : lists 9 (all_ids three_peers.peer_table.peer_ids) ≡ false
unfolding all_ids
nine_unknown = refl

three_peers-AreFound : AreFound three_peers.filetable (elements three_peers.filetable)
unfolding elements entry_at get_element bucket bucket_search hash equals hash_pjw name_eq Spec.find
three_peers-AreFound = (refl, tt)

few : length (elements three_peers.filetable) < 2
unfolding elements
few = omega arith

-- Only peer 6 has the chunk.
abbrev last_copy : Tracker
last_copy = record three_peers {
  filetable = record {
    table = (record a_entry { chunks = (6 ∷ []) ∷ [] } ∷ []) ∷ [];
    tablesize = 1;
  };
}

last_copy-AreFound : AreFound last_copy.filetable (elements last_copy.filetable)
unfolding elements entry_at get_element bucket bucket_search hash equals hash_pjw name_eq Spec.find
last_copy-AreFound = (refl, tt)

one_entry : length (elements last_copy.filetable) < 9
unfolding elements
one_entry = omega arith

a_starved :
    starved_paths (map (without_peer 6) (elements last_copy.filetable)) ≡ (b'/' ∷ b'a' ∷ []) ∷ []
unfolding elements without_peer Spec.filter
a_starved = refl

abbrev empty_tree : FileSystem
empty_tree = record { root_path = none; root = folder [] [] nil }

a_removed :
    AreRemoved 9
      (starved_paths (map (without_peer 6) (elements last_copy.filetable)))
      last_copy.fs
      empty_tree
unfolding name_eq
a_removed =
    subst (λ paths. AreRemoved 9 paths last_copy.fs empty_tree) (sym a_starved)
      (empty_tree, run, refl)
  where
    run : filesystem_remove_file_at_path 9 (tree 5) (b'/' ∷ b'a' ∷ []) ≡ some empty_tree
    run = unfold filesystem_remove_file_at_path in refl

files_to_prune_lem_example :
    files_to_prune three_peers.filetable (iterate 2 three_peers.filetable)
    ≡ some (starved_paths (elements three_peers.filetable))
files_to_prune_lem_example = files_to_prune_lem 2 three_peers.filetable three_peers-AreFound few

lost_client_lem_example :
    let paths = starved_paths (map (without_peer 6) (elements last_copy.filetable)) in
    (peers : PeerIds) × (lost_client 9 last_copy 6
      ≡ some (
        record {
          fs = empty_tree;
          filetable = without_files paths (remove_peer last_copy.filetable 6);
          peer_table = peers;
        },
        map
              (λ to. peer_removed to 6)
              (Spec.filter (λ i. not (i == 6) && not (i == 0)) (all_ids peers.peer_ids))
            ++ masters paths empty_tree (all_ids peers.peer_ids),
      ))
    × Perm (all_ids last_copy.peer_table.peer_ids) (6 ∷ all_ids peers.peer_ids)
    × IsCounted peers
lost_client_lem_example =
    lost_client_lem 9 last_copy 6 empty_tree three_peers-IsCounted six_known last_copy-AreFound
      one_entry a_removed

add_peer_to_table_lem_example :
    ((add_peer_to_table three_peers.peer_table 9).0 ≡ true)
    × Perm
        (all_ids (add_peer_to_table three_peers.peer_table 9).1.peer_ids)
        (9 ∷ all_ids three_peers.peer_table.peer_ids)
    × IsCounted (add_peer_to_table three_peers.peer_table 9).1
add_peer_to_table_lem_example =
    add_peer_to_table_lem three_peers.peer_table 9 three_peers-IsCounted nine_unknown

contains_peer_forgets_example :
    let t = (add_peer_to_table (add_peer_to_table create_peer_table 1).1 2).1 in
    (r : PeerIds) × (remove_peer_from_table t 1 ≡ some r)
    × (all_ids r.peer_ids ≡ 2 ∷ [])
    × (contains_peer r 2 ≡ some false)
contains_peer_forgets_example = contains_peer_forgets 1 2 (omega arith) (λ e. cc)
