-- ===== src/FileSystem/Listing.antt =====
-- utility/FileSystem/FileSystem.c: the iterator over the paths of a tree. A listed `_File` has its
-- whole path as its name.
pub mod Order
use seven_deadly_syns.Prelude.{
  ℕ, Bool, true, false, if◌then◌else◌, Option, none, some, List, [], ◌∷◌, ◌++◌, Ptr,
}
use seven_deadly_syns.FileSystem.Types.{Name, File, Folder, Folders, FileSystem, folder, nil, cons}

-- `add_strings(3, path, "/", name)`
unfoldable pub path_to : Name → Name → Name
path_to path name = path ++ (b'/' ∷ name)

-- The entries for the regular files of a queue, and for the folders of a queue.
unfoldable pub listed_files : Name → List File → List File
unfolding path_to
listed_files path [] = []
listed_files path (f ∷ fs) =
    if f.is_folder
    then listed_files path fs
    else record {
      name = path_to path f.name;
      size = f.size;
      last_modified = f.last_modified;
      is_folder = false;
    }
      ∷ listed_files path fs

unfoldable pub listed_folders : Name → List File → List File
unfolding path_to
listed_folders path [] = []
listed_folders path (f ∷ fs) =
    if f.is_folder
    then record { name = path_to path f.name; size = 0; last_modified = 0; is_folder = true }
      ∷ listed_folders path fs
    else listed_folders path fs

-- filesystem_get_path_list_file_first: what it pushes to `file_list`.
unfoldable mutual
  unfolding listed_files listed_folders path_to

  pub file_first : Name → Folder → List File
  file_first path (folder n fs ds) =
      listed_files path fs ++ (file_first_all path ds ++ listed_folders path fs)

  pub file_first_all : Name → Folders → List File
  file_first_all path nil = []
  file_first_all path (cons (folder n fs ds) rest) =
      file_first (path_to path n) (folder n fs ds) ++ file_first_all path rest

-- filesystem_get_path_list_folder_first
unfoldable mutual
  unfolding listed_files listed_folders path_to

  pub folder_first : Name → Folder → List File
  folder_first path (folder n fs ds) =
      listed_folders path fs ++ (folder_first_all path ds ++ listed_files path fs)

  pub folder_first_all : Name → Folders → List File
  folder_first_all path nil = []
  folder_first_all path (cons (folder n fs ds) rest) =
      folder_first (path_to path n) (folder n fs ds) ++ folder_first_all path rest

-- `_FileSystemIterator`: the entries that are left. filesystemiterator_new on a root path of NULL
-- reads through it: `none`.
unfoldable pub iterator : FileSystem → Bool → Option (List File)
unfolding file_first folder_first
iterator fs first = elim (fs.root_path) [
  | none ↦ none
  | some path ↦ some (if first then file_first path fs.root else folder_first path fs.root)
]

-- filesystemiterator_relative_new: the root path is "" for the time of the call.
unfoldable pub relative_iterator : FileSystem → Bool → Option (List File)
unfolding iterator
relative_iterator fs first = iterator (record fs { root_path = some [] }) first

-- filesystemiterator_next: the path, the length, none for the -1 of a folder, and the time.
unfoldable pub next : List File → Option (Name × Option ℕ × ℕ) × List File
next [] = (none, [])
next (f ∷ fs) = (some (f.name, (if f.is_folder then none else some f.size), f.last_modified), fs)
