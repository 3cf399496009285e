-- ===== src/FileSystem/Update/Sync.antt =====
-- A tree that is brought up to date with a difference holds what the new tree holds.
use seven_deadly_syns.Prelude.{
  ℕ, zero, suc, ◌+◌, ◌≤◌, ◌≡◌, refl, sym, ap, ap₂, ◌∙◌, some, List, arith,
}
use seven_deadly_syns.FileSystem.Types.{
  Name, File, Folder, Folders, FileSystem, folder, nil, cons, find_folder, file_equals,
}
use seven_deadly_syns.FileSystem.Paths.{files_at}
use seven_deadly_syns.FileSystem.Subtract.{
  subtract, subtract_files, subtract_folders, is_empty, diff, folder_copy-eq,
}
use seven_deadly_syns.FileSystem.Subtract.Laws.{subtract_files-nil}
use seven_deadly_syns.FileSystem.Diff.{has}
use seven_deadly_syns.FileSystem.Update.{remove, add, minus_equals, plus_equals}
use seven_deadly_syns.FileSystem.Update.Good.{
  Good, Good-Level, Good-child, empty-Good, depth, depth-child, depth-positive, depth-bare,
}
use seven_deadly_syns.FileSystem.Update.Files.{bare}
use seven_deadly_syns.FileSystem.Update.OneLevel.{Agree, level-Sync, plus_equals-runs, remove_empty}

-- What taking a tree out of a bare folder, and a bare folder out of a tree, gives.
subtract-bare : (n : Name) (e : Folder) → subtract file_equals (bare n) e ≡ e
unfolding subtract subtract_files subtract_folders
subtract-bare n (folder k fn dn) = refl

subtract_folders-nil : (us : Folders) → subtract_folders file_equals us nil ≡ nil
unfolding subtract_folders find_folder
subtract_folders-nil nil = refl
subtract_folders-nil (cons u us) = subtract_folders-nil us

bare-subtract : (n : Name) (e : Folder) → subtract file_equals e (bare n) ≡ bare n
unfolding subtract
bare-subtract n (folder k fn dn) =
    ap₂ (folder n) (subtract_files-nil file_equals fn) (subtract_folders-nil dn)

remove-bare : (n : Name) (e : Folder) → remove (subtract file_equals e (bare n)) (bare n) ≡ bare n
remove-bare n e =
    remove_empty (subtract file_equals e (bare n)) (bare n)
      (ap is_empty (bare-subtract n e) ∙ (unfold is_empty in refl))

-- The same for whole trees up to a depth.
sync_trees :
    (k : ℕ) (d e : Folder)
    → depth d ≤ k
    → depth e ≤ k
    → Good d
    → Good e
    → (r : Folder) × (add (subtract file_equals d e) (remove (subtract file_equals e d) d) ≡ some r)
      × Agree r e
sync_trees zero d e hd he gd ge = absurd (omega (arith, depth-positive d))
sync_trees (suc k) (folder m fo do_) (folder m' fn dn) hd he gd ge =
    level-Sync fo fn do_ dn (Good-Level (folder m fo do_) gd) (Good-Level (folder m' fn dn) ge)
      (λ n d e ho hn.
        sync_trees k d e (omega (arith, hd, depth-child (folder m fo do_) n d ho))
          (omega (arith, he, depth-child (folder m' fn dn) n e hn))
          (Good-child (folder m fo do_) gd n d ho) (Good-child (folder m' fn dn) ge n e hn))
      (λ n e ho hn.
        let under = depth-child (folder m' fn dn) n e hn in
        let (r, runs, agree) =
          sync_trees k (bare n) e (omega (arith, he, under, depth-positive e, depth-bare n))
            (omega (arith, he, under)) (empty-Good n) (Good-child (folder m' fn dn) ge n e hn) in
        (r, sym (ap₂ add (subtract-bare n e) (remove-bare n e)) ∙ runs, agree))
      m m'

-- A tree from which the deletions of filesystem_diff are taken, and to which its additions are then
-- added, holds at each path the files that the new tree holds there; no assert of folder_add fails.
-- Both trees are built as folder_new does: no entry twice in a folder, the child folders of different
-- names, and exactly one entry, of size and time 0, for each of them.
pub plus-minus-diff :
    (old new : FileSystem)
    → Good old.root
    → Good new.root
    → let (additions, deletions) = diff old new in
      (r : FileSystem) × (plus_equals (minus_equals old deletions) additions ≡ some r)
      × ((p : List Name) (x : File) → has x (files_at p r.root) ≡ has x (files_at p new.root))
unfolding diff minus_equals
plus-minus-diff old new go gn =
    let (r, runs, agree) =
      sync_trees (depth old.root + depth new.root) old.root new.root (omega arith) (omega arith) go
        gn in
    rw (folder_copy-eq old.root, folder_copy-eq new.root)
      (record old { root = r }, plus_equals-runs _ _ r runs, agree)
