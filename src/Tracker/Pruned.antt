-- ===== src/Tracker/Pruned.antt =====
-- prune_filesystem, by the files that it takes out.
use seven_deadly_syns.Prelude.{ℕ, ◌≡◌, refl, ap, some, List, [], ◌∷◌, map}
use seven_deadly_syns.FileSystem.Types.{Name, FileSystem}
use seven_deadly_syns.FileSystem.Components.{filesystem_remove_file_at_path}
use seven_deadly_syns.HashTable.Iterate.{iterate}
use seven_deadly_syns.FileTable.{FileTable, remove_file}
use seven_deadly_syns.Tracker.{
  Tracker, Message, master, prune, all_ids, files_to_prune, prune_filesystem,
}

-- These files are taken out of the tree one after the other.
abbrev pub AreRemoved : ℕ → List Name → FileSystem → FileSystem → Type 0
AreRemoved fuel [] fs fs' = fs ≡ fs'
AreRemoved fuel (path ∷ paths) fs fs' =
    (mid : FileSystem) × (filesystem_remove_file_at_path fuel fs path ≡ some mid)
    × AreRemoved fuel paths mid fs'

-- The file table without these files.
abbrev pub without_files : List Name → FileTable → FileTable
without_files [] ft = ft
without_files (path ∷ paths) ft = without_files paths (remove_file ft path)

prune-AreRemoved :
    (fuel : ℕ) (paths : List Name) (fs fs' : FileSystem) (ft : FileTable)
    → AreRemoved fuel paths fs fs'
    → prune fuel paths fs ft ≡ some (fs', without_files paths ft)
unfolding prune
prune-AreRemoved fuel [] fs fs' ft h = ap (λ r. some (r, ft)) h
prune-AreRemoved fuel (path ∷ paths) fs fs' ft (mid, e, more) =
    rw (e, prune) (prune-AreRemoved fuel paths mid fs' (remove_file ft path) more)

-- What the master messages are, by the files that were taken out.
abbrev pub masters : List Name → FileSystem → List ℕ → List Message
masters [] fs ids = []
masters (path ∷ paths) fs ids = map (λ to. master to fs) ids

pub prune_filesystem-AreRemoved :
    (fuel : ℕ) (t : Tracker) (paths : List Name) (fs' : FileSystem)
    → files_to_prune t.filetable (iterate fuel t.filetable) ≡ some paths
    → AreRemoved fuel paths t.fs fs'
    → prune_filesystem fuel t
      ≡ some (
        record t { fs = fs'; filetable = without_files paths t.filetable },
        masters paths fs' (all_ids t.peer_table.peer_ids),
      )
unfolding prune_filesystem
prune_filesystem-AreRemoved fuel t [] fs' e h =
    rw (e, prune_filesystem) (ap (λ r. some (record t { fs = r }, [])) h)
prune_filesystem-AreRemoved fuel t (path ∷ paths) fs' e h =
    rw (e, prune_filesystem)
      (rw (prune-AreRemoved fuel (path ∷ paths) t.fs fs' t.filetable h, prune_filesystem) refl)
