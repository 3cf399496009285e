-- ===== src/Tracker.antt =====
-- tracker/tracker.c: the tracker's table of peers and its handlers. The thread of the network is not
-- here: what a receive_ function gives is an event, and what a send_ function is called with is a message.
pub mod Broadcasts
pub mod Sync
pub mod Pruned
pub mod Lost
mod Tests
use seven_deadly_syns.Prelude.{
  ℕ, zero, suc, ◌+◌, ◌-◌, ◌==◌, ltb, leb, ◌||◌, Bool, true, false, if◌then◌else◌, Option, none,
  some, List, [], ◌∷◌, ◌++◌, map, length, replicate, set, get_elem?,
}
use seven_deadly_syns.FileSystem.Types.{Name, FileSystem}
use seven_deadly_syns.FileSystem.Update.{minus_equals, plus_equals}
use seven_deadly_syns.FileSystem.Components.{filesystem_remove_file_at_path}
use seven_deadly_syns.HashTable.Iterate.{iterate}
use seven_deadly_syns.FileTable.{
  FileTableEntry, FileTable, get_num_chunks, get_peers, remove_peer, remove_file, remove_filesystem,
  add_filesystem, set_that_peer_has_file_chunk,
}

-- `peer_table` with its peerTableSize ids; -1 is none.
pub record PeerIds : Type 0 where
  pub number_of_entries : ℕ
  pub peer_ids : List (Option ℕ)

-- createPeerTable, at the first value of peerTableSize.
unfoldable pub create_peer_table : PeerIds
create_peer_table = record { number_of_entries = 0; peer_ids = replicate 16 none }

unfoldable pub is_id : ℕ → Option ℕ → Bool
is_id id none = false
is_id id (some i) = i == id

-- containsPeer: `none` is a read behind the last slot.
unfoldable pub contains_from : ℕ → ℕ → List (Option ℕ) → Option Bool
unfolding is_id
contains_from id zero slots = some false
contains_from id (suc n) [] = none
contains_from id (suc n) (s ∷ slots) = if is_id id s then some true else contains_from id n slots

unfoldable pub contains_peer : PeerIds → ℕ → Option Bool
unfolding contains_from
contains_peer t id =
    if ltb id 1 then some false else contains_from id t.number_of_entries t.peer_ids

-- What the loop of addPeerToTable comes to.
pub data Place : Type 0 where
  present : Place
  placed : List (Option ℕ) → Place
  full : Place

unfoldable pub placed_behind : Option ℕ → Place → Place
placed_behind s present = present
placed_behind s (placed slots) = placed (s ∷ slots)
placed_behind s full = full

unfoldable pub place : ℕ → List (Option ℕ) → Place
unfolding placed_behind
place id [] = full
place id (none ∷ slots) = placed (some id ∷ slots)
place id (some i ∷ slots) =
    let rest = place id slots in if i == id then present else placed_behind (some i) rest

-- addPeerToTable: true for 1. A full table is doubled.
unfoldable pub add_peer_to_table : PeerIds → ℕ → Bool × PeerIds
unfolding place
add_peer_to_table t id =
    let n = t.number_of_entries + 1 in
    elim (place id t.peer_ids) [
      | present ↦ (false, record t { number_of_entries = n })
      | placed slots ↦ (true, record { number_of_entries = n; peer_ids = slots })
      | full ↦ (
        true,
        record {
          number_of_entries = n;
          peer_ids =
              set (t.peer_ids ++ replicate (length t.peer_ids) none) (length t.peer_ids) (some id);
        },
      )
    ]

-- The loop of removePeerFromTable: the slots with the first one that has the id free.
unfoldable pub free_slot : ℕ → List (Option ℕ) → Option (List (Option ℕ))
unfolding is_id
free_slot id [] = none
free_slot id (s ∷ slots) =
    let rest = free_slot id slots in
    if is_id id s
    then some (none ∷ slots)
    else elim rest [ none ↦ none | some left ↦ some (s ∷ left) ]

-- removePeerFromTable: without the id, the slot behind the last one is read, which is `none`.
unfoldable pub remove_peer_from_table : PeerIds → ℕ → Option PeerIds
unfolding free_slot
remove_peer_from_table t id = elim (free_slot id t.peer_ids) [
  | none ↦ none
  | some slots ↦ some (record { number_of_entries = t.number_of_entries - 1; peer_ids = slots })
]

-- The calls send_peer_added, send_peer_removed, send_FS_update, send_got_chunk_update, send_master and
-- send_master_filetable, each with its destination first.
pub data Message : Type 0 where
  peer_added : ℕ → ℕ → Message
  peer_removed : ℕ → ℕ → Message
  fs_update : ℕ → ℕ → FileSystem → FileSystem → Message
  got_chunk : ℕ → ℕ → Name → ℕ → Message
  master : ℕ → FileSystem → Message
  master_filetable : ℕ → FileTable → Message

-- The destinations of a broadcast: the ids but -1, 0 and that of `from`.
unfoldable pub others : ℕ → List (Option ℕ) → List ℕ
others from [] = []
others from (none ∷ slots) = others from slots
others from (some i ∷ slots) =
    if (i == from) || (i == 0) then others from slots else i ∷ others from slots

unfoldable pub new_peer_broadcast : PeerIds → ℕ → List Message
unfolding others
new_peer_broadcast t id = map (λ to. peer_added to id) (others id t.peer_ids)

unfoldable pub lost_peer_broadcast : PeerIds → ℕ → List Message
unfolding others
lost_peer_broadcast t id = map (λ to. peer_removed to id) (others id t.peer_ids)

unfoldable pub filesystem_update_broadcast : PeerIds → FileSystem → FileSystem → ℕ → List Message
unfolding others
filesystem_update_broadcast t additions deletions originator =
    map (λ to. fs_update to originator additions deletions) (others originator t.peer_ids)

unfoldable pub client_got_broadcast : PeerIds → Name → ℕ → ℕ → List Message
unfolding others
client_got_broadcast t file_got chunk_got peer_got_id =
    map (λ to. got_chunk to peer_got_id file_got chunk_got) (others peer_got_id t.peer_ids)

-- `fs`, `filetable` and `peerTable`.
pub record Tracker : Type 0 where
  pub fs : FileSystem
  pub filetable : FileTable
  pub peer_table : PeerIds

-- updateNetwork; `rand` is for filetable_add_filesystem, which does not call it here.
unfoldable pub update_network :
    (ℕ → ℕ) → Tracker → ℕ → FileSystem → FileSystem → Option (Tracker × List Message)
unfolding plus_equals minus_equals remove_filesystem add_filesystem filesystem_update_broadcast
update_network rand t update_pusher additions deletions =
    let adds = record additions { root_path = none } in
    let dels = record deletions { root_path = none } in
    elim (plus_equals (minus_equals t.fs dels) adds) [
      | none ↦ none
      | some fs' ↦ some (
        record t {
          fs = fs';
          filetable =
              add_filesystem rand (remove_filesystem t.filetable dels) adds update_pusher false;
        },
        filesystem_update_broadcast t.peer_table adds dels update_pusher,
      )
    ]

-- The inner loop of the scan in prune_filesystem, from chunk `i` on, with `n` chunks left: does nobody
-- have one of them?
unfoldable pub nobody_has : FileTable → Name → ℕ → ℕ → Option Bool
unfolding get_peers
nobody_has ft path i zero = some false
nobody_has ft path i (suc n) =
    let rest = nobody_has ft path (i + 1) n in
    elim (get_peers ft path i) [
      | none ↦ none
      | some none ↦ none
      | some (some []) ↦ some true
      | some (some (p ∷ ps)) ↦ rest
    ]

-- `files_to_prune`, of the entries that the iterator gives.
unfoldable pub files_to_prune : FileTable → List FileTableEntry → Option (List Name)
unfolding get_num_chunks nobody_has
files_to_prune ft [] = some []
files_to_prune ft (fte ∷ more) =
    let rest = files_to_prune ft more in
    elim (get_num_chunks ft fte.path) [
      | none ↦ none
      | some n ↦ elim (nobody_has ft fte.path 0 n) [
        | none ↦ none
        | some unowned ↦ elim rest [
          | none ↦ none
          | some paths ↦ some (if unowned then fte.path ∷ paths else paths)
        ]
      ]
    ]

-- The loop that takes these files out; `fuel` is for get_path_components.
unfoldable pub prune : ℕ → List Name → FileSystem → FileTable → Option (FileSystem × FileTable)
unfolding filesystem_remove_file_at_path remove_file
prune fuel [] fs ft = some (fs, ft)
prune fuel (path ∷ paths) fs ft = elim (filesystem_remove_file_at_path fuel fs path) [
  | none ↦ none
  | some fs' ↦ prune fuel paths fs' (remove_file ft path)
]

-- The ids but -1.
unfoldable pub all_ids : List (Option ℕ) → List ℕ
all_ids [] = []
all_ids (none ∷ slots) = all_ids slots
all_ids (some i ∷ slots) = i ∷ all_ids slots

-- prune_filesystem; `fuel` is for the loops over the file table and over the bytes of a path.
unfoldable pub prune_filesystem : ℕ → Tracker → Option (Tracker × List Message)
unfolding files_to_prune iterate prune all_ids
prune_filesystem fuel t = elim (files_to_prune t.filetable (iterate fuel t.filetable)) [
  | none ↦ none
  | some [] ↦ some (t, [])
  | some (path ∷ paths) ↦ elim (prune fuel (path ∷ paths) t.fs t.filetable) [
    | none ↦ none
    | some (fs', ft') ↦ some (
      record t { fs = fs'; filetable = ft' },
      map (λ to. master to fs') (all_ids t.peer_table.peer_ids),
    )
  ]
]

-- The handler of a lost client.
unfoldable pub lost_client : ℕ → Tracker → ℕ → Option (Tracker × List Message)
unfolding remove_peer_from_table remove_peer lost_peer_broadcast prune_filesystem
lost_client fuel t id = elim (remove_peer_from_table t.peer_table id) [
  | none ↦ none
  | some peers ↦
      let t' : Tracker = record t { peer_table = peers; filetable = remove_peer t.filetable id } in
      elim (prune_filesystem fuel t') [
        | none ↦ none
        | some (t'', sent) ↦ some (t'', lost_peer_broadcast peers id ++ sent)
      ]
]

-- The handler of a chunk that a client got.
unfoldable pub client_got : Tracker → Name → ℕ → ℕ → Option (Tracker × List Message)
unfolding contains_peer client_got_broadcast set_that_peer_has_file_chunk
client_got t file_got chunk_got peer_got_id = elim (contains_peer t.peer_table peer_got_id) [
  | none ↦ none
  | some false ↦ some (t, [])
  | some true ↦ elim (set_that_peer_has_file_chunk t.filetable file_got peer_got_id chunk_got) [
    | none ↦ none
    | some ft' ↦ some (
      record t { filetable = ft' },
      client_got_broadcast t.peer_table file_got chunk_got peer_got_id,
    )
  ]
]

-- What the main loop receives.
pub data Event : Type 0 where
  new_client : ℕ → Event
  master_request : ℕ → Event
  lost : ℕ → Event
  got : Name → ℕ → ℕ → Event
  update : ℕ → FileSystem → FileSystem → Event

-- One body of the inner loops of main.
unfoldable pub handle : (ℕ → ℕ) → ℕ → Tracker → Event → Option (Tracker × List Message)
unfolding add_peer_to_table new_peer_broadcast lost_client client_got update_network
handle rand fuel t (new_client id) =
    let peers = (add_peer_to_table t.peer_table id).1 in
    some (record t { peer_table = peers }, new_peer_broadcast peers id)
handle rand fuel t (master_request id) =
    some (t, master id t.fs ∷ (master_filetable id t.filetable ∷ []))
handle rand fuel t (lost id) = lost_client fuel t id
handle rand fuel t (got file_got chunk_got id) = client_got t file_got chunk_got id
handle rand fuel t (update id additions deletions) = update_network rand t id additions deletions

-- The events that the loop receives one after the other.
unfoldable pub run : (ℕ → ℕ) → ℕ → Tracker → List Event → Option (Tracker × List Message)
unfolding handle
run rand fuel t [] = some (t, [])
run rand fuel t (e ∷ es) = elim (handle rand fuel t e) [
  | none ↦ none
  | some (t', sent) ↦ elim (run rand fuel t' es) [
    | none ↦ none
    | some (t'', more) ↦ some (t'', sent ++ more)
  ]
]
