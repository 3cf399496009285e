-- ===== src/FileSystem/Update.antt =====
-- utility/FileSystem/FileSystem.c: what takes a difference out of a tree and puts one in,
-- filesystem_minus_equals and filesystem_plus_equals. `none` is a failed assert.
pub mod Files
pub mod Children
pub mod Good
pub mod OneLevel
pub mod Sync
use seven_deadly_syns.Prelude.{
  Bool, true, false, if◌then◌else◌, Option, none, some, List, [], ◌∷◌, ◌++◌,
}
use seven_deadly_syns.Queue.Spec
use seven_deadly_syns.FileSystem.Types.{
  Name, File, Folder, Folders, FileSystem, folder, nil, cons, files, folders, folder_name,
  find_folder, erase_folder, replace_folder, push_folder, file_equals,
}

-- The folder that goes with a file that was removed: `if (removedFile->is_folder)`.
unfoldable pub remove_folder_of : Option File → Folders → Folders
remove_folder_of none ds = ds
remove_folder_of (some f) ds = if f.is_folder then erase_folder f.name ds else ds

-- The first loop of folder_remove, on the files and the folders.
unfoldable pub remove_files : List File → List File → Folders → List File × Folders
unfolding remove_folder_of
remove_files [] fs ds = (fs, ds)
remove_files (t ∷ ts) fs ds =
    remove_files ts (Spec.erase (file_equals t) fs)
      (remove_folder_of (Spec.find (file_equals t) fs) ds)

-- `folder_remove(folder, toSubtract)` and its second loop. A folder that is found is changed in
-- place.
unfoldable mutual
  unfolding remove_files

  pub remove : Folder → Folder → Folder
  remove (folder m ts us) f =
      let (fs, ds) = remove_files ts (files f) (folders f) in
      folder (folder_name f) fs (remove_folders us ds)

  pub remove_folders : Folders → Folders → Folders
  remove_folders nil ds = ds
  remove_folders (cons t ts) ds = remove_folders ts (elim (find_folder (folder_name t) ds) [
    | none ↦ ds
    | some found ↦ replace_folder (folder_name t) (remove t found) ds
  ])

-- One round of the first loop of folder_add, for a file of a folder with the folders `us`.
unfoldable pub add_file : Folders → File → List File → Folders → Option (List File × Folders)
unfolding Spec.find
add_file us t fs ds =
    if t.is_folder
    then elim (find_folder t.name us) [
      | none ↦ none
      | some folder_to_add ↦ elim (Spec.find (file_equals t) fs) [
        | some file ↦ elim (find_folder t.name ds) [ none ↦ none | some d ↦ some (fs, ds) ]
        | none ↦ elim (find_folder t.name ds) [
          | none ↦ some (fs ++ (t ∷ []), push_folder ds (folder t.name [] nil))
          | some d ↦ none
        ]
      ]
    ]
    else elim (Spec.find (file_equals t) fs) [
      | none ↦ some (fs ++ (t ∷ []), ds)
      | some file ↦ some (fs, ds)
    ]

unfoldable pub add_files : Folders → List File → List File → Folders → Option (List File × Folders)
unfolding add_file
add_files us [] fs ds = some (fs, ds)
add_files us (t ∷ ts) fs ds = elim (add_file us t fs ds) [
  | none ↦ none
  | some (fs', ds') ↦ add_files us ts fs' ds'
]

-- `folder_add(folder, toPlus)` and its second loop.
unfoldable mutual
  unfolding add_files

  pub add : Folder → Folder → Option Folder
  add (folder m ts us) f = elim (add_files us ts (files f) (folders f)) [
    | none ↦ none
    | some (fs, ds) ↦ elim (add_folders us ds) [
      | none ↦ none
      | some ds' ↦ some (folder (folder_name f) fs ds')
    ]
  ]

  pub add_folders : Folders → Folders → Option Folders
  add_folders nil ds = some ds
  add_folders (cons t ts) ds = elim (find_folder (folder_name t) ds) [
    | none ↦ none
    | some found ↦ elim (add t found) [
      | none ↦ none
      | some d ↦ add_folders ts (replace_folder (folder_name t) d ds)
    ]
  ]

-- filesystem_minus_equals and filesystem_plus_equals
unfoldable pub minus_equals : FileSystem → FileSystem → FileSystem
unfolding remove
minus_equals fs0 fs1 = record fs0 { root = remove fs1.root fs0.root }

unfoldable pub plus_equals : FileSystem → FileSystem → Option FileSystem
unfolding add
plus_equals fs0 fs1 = elim (add fs1.root fs0.root) [
  | none ↦ none
  | some root ↦ some (record fs0 { root = root })
]
