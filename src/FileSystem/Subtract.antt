-- ===== src/FileSystem/Subtract.antt =====
-- folder_subtract, filesystem_diff_helper and filesystem_equals of FileSystem.c.
pub mod Laws
pub mod Counts
use seven_deadly_syns.Prelude.{
  ℕ, zero, suc, ◌≡◌, refl, ap, ap₂, Bool, true, false, ◌&&◌, if◌then◌else◌, Option, none, some,
  List, [], ◌∷◌,
}
use seven_deadly_syns.Queue.Spec
use seven_deadly_syns.FileSystem.Types.{
  Name, File, Folder, Folders, folder, nil, cons, FileSystem, files, folders, folder_name,
  file_equals, file_ignore_time, file_newer, file_older, find_folder, erase_folder, replace_folder,
}

-- The first loop of folder_subtract: each file of the second list is removed once from the first.
unfoldable pub subtract_files : (File → File → Bool) → List File → List File → List File
subtract_files equals [] fs = fs
subtract_files equals (t ∷ ts) fs = subtract_files equals ts (Spec.erase (equals t) fs)

unfoldable pub is_empty : Folder → Bool
is_empty (folder n [] nil) = true
is_empty (folder n [] (cons d ds)) = false
is_empty (folder n (f ∷ fs) ds) = false

-- `folder_subtract(folder, toSubtract, equalsFunc)` and its second loop. The folder that is found
-- is changed in place, and taken out of its queue if nothing is left in it.
unfoldable mutual
  pub subtract : (File → File → Bool) → Folder → Folder → Folder
  subtract equals (folder m ts us) f =
      folder (folder_name f) (subtract_files equals ts (files f))
        (subtract_folders equals us (folders f))

  pub subtract_folders : (File → File → Bool) → Folders → Folders → Folders
  subtract_folders equals nil ds = ds
  subtract_folders equals (cons t ts) ds =
      subtract_folders equals ts (elim (find_folder (folder_name t) ds) [
        | none ↦ ds
        | some found ↦
            (let rest = subtract equals t found in
              if is_empty rest
              then erase_folder (folder_name t) ds
              else replace_folder (folder_name t) rest ds)
      ])

-- folder_copy
unfoldable mutual
  pub folder_copy : Folder → Folder
  folder_copy (folder n fs ds) = folder n fs (folders_copy ds)

  pub folders_copy : Folders → Folders
  folders_copy nil = nil
  folders_copy (cons d ds) = cons (folder_copy d) (folders_copy ds)

unfoldable pub filesystem_copy : FileSystem → FileSystem
unfolding folder_copy
filesystem_copy fs = record fs { root = folder_copy fs.root }

unfoldable pub filesystem_is_empty : FileSystem → Bool
unfolding is_empty
filesystem_is_empty fs = is_empty fs.root

unfoldable pub minus_equals_diff : (File → File → Bool) → FileSystem → FileSystem → FileSystem
unfolding subtract
minus_equals_diff equals fs0 fs1 = record fs0 { root = subtract equals fs1.root fs0.root }

-- filesystem_diff_helper: the additions and the deletions, after the exchange at its end.
unfoldable pub diff_helper :
    (File → File → Bool) → FileSystem → FileSystem → FileSystem × FileSystem
unfolding filesystem_copy minus_equals_diff
diff_helper equals old new =
    let additions = filesystem_copy old in
    let deletions = filesystem_copy new in
    let deletions' = minus_equals_diff equals deletions additions in
    let additions' = minus_equals_diff equals additions new in (deletions', additions')

-- filesystem_handle_updates: what `additions` and `deletions` point to after the call.
unfoldable pub handle_updates : FileSystem → FileSystem → FileSystem × FileSystem
unfolding diff_helper filesystem_copy minus_equals_diff file_ignore_time file_equals file_newer
    file_older
handle_updates additions deletions =
    let (a1, d1) = diff_helper file_ignore_time additions deletions in
    let a0 = minus_equals_diff file_equals (filesystem_copy additions) d1 in
    let d0 = minus_equals_diff file_equals (filesystem_copy deletions) a1 in
    (minus_equals_diff file_newer additions d0, minus_equals_diff file_older deletions a0)

unfoldable pub diff : FileSystem → FileSystem → FileSystem × FileSystem
unfolding diff_helper
diff old new = diff_helper file_equals old new

unfoldable pub filesystem_equals : FileSystem → FileSystem → Bool
unfolding diff filesystem_is_empty
filesystem_equals fs0 fs1 =
    let (additions, deletions) = diff fs0 fs1 in
    filesystem_is_empty additions && filesystem_is_empty deletions

mutual
  unfolding folder_copy folders_copy

  copy_eq : (f : Folder) → folder_copy f ≡ f
  copy_eq (folder n fs ds) = ap (folder n fs) (copies_eq ds)

  copies_eq : (ds : Folders) → folders_copy ds ≡ ds
  copies_eq nil = refl
  copies_eq (cons d ds) = ap₂ cons (copy_eq d) (copies_eq ds)

-- A copy has the same tree.
pub folder_copy-eq : (f : Folder) → folder_copy f ≡ f
folder_copy-eq f = copy_eq f
