-- ===== src/FileSystem/Components.antt =====
-- utility/FileSystem/FileSystem.c: the components of a path, and the removal of the file that a path
-- names.
pub mod Split
pub mod Removal
use seven_deadly_syns.Prelude.{
  ℕ, zero, suc, ◌+◌, ◌==◌, Bool, true, false, if◌then◌else◌, Option, none, some, List, [], ◌∷◌,
  ◌++◌, map, length, drop,
}
use seven_deadly_syns.Queue.Spec
use seven_deadly_syns.FileSystem.Types.{
  Name, File, Folder, Folders, FileSystem, folder, nil, cons, find_folder, erase_folder,
  replace_folder, name_eq, file_equals_name_only,
}

-- `path_copy`: each slash becomes a 0.
unfoldable pub cut_slash : ℕ → ℕ
cut_slash c = if c == b'/' then 0 else c

-- copy_string at a place of `path_copy`.
unfoldable pub take_string : List ℕ → Name
take_string [] = []
take_string (c ∷ cs) = if c == 0 then [] else c ∷ take_string cs

-- The loop of get_path_components on what is left of `path_copy`, with `prev_was_null`. `none`:
-- the fuel does not suffice.
unfoldable pub components_from : ℕ → Bool → List ℕ → Option (List Name)
unfolding take_string
components_from zero prev_was_null bytes = none
components_from (suc fuel) prev_was_null [] = some []
components_from (suc fuel) prev_was_null (c ∷ cs) = elim (c == 0) [
  | true ↦ components_from fuel true cs
  | false ↦ elim prev_was_null [
    | false ↦ components_from fuel false (c ∷ cs)
    | true ↦ elim (components_from fuel true (drop (length (take_string (c ∷ cs))) (c ∷ cs))) [
      | none ↦ none
      | some rest ↦ some (take_string (c ∷ cs) ∷ rest)
    ]
  ]
]

-- get_path_components
unfoldable pub get_path_components : ℕ → Name → Option (List Name)
unfolding components_from cut_slash
get_path_components fuel path = components_from fuel false (map cut_slash path)

-- The last component: the first entry of that name, and its folder. `none` is the assert behind FAIL.
unfoldable pub remove_last : Name → Folder → Option Folder
unfolding Spec.find Spec.erase
remove_last component (folder m fs ds) =
    let is : File → Bool = λ f. name_eq component f.name in
    elim (Spec.find is fs) [
      | none ↦ none
      | some found ↦
          if found.is_folder
          then elim (find_folder component ds) [
            | none ↦ none
            | some d ↦ some (folder m (Spec.erase is fs) (erase_folder component ds))
          ]
          else some (folder m (Spec.erase is fs) ds)
    ]

-- folder_remove_file_at_path. With no component left queue_pop gives NULL, which strcmp reads.
unfoldable pub remove_file_at_path : List Name → Folder → Option Folder
unfolding remove_last
remove_file_at_path [] f = none
remove_file_at_path (component ∷ []) f = remove_last component f
remove_file_at_path (component ∷ (next ∷ more)) (folder m fs ds) = elim (find_folder component ds) [
  | none ↦ none
  | some found ↦ elim (remove_file_at_path (next ∷ more) found) [
    | none ↦ none
    | some left ↦ some (folder m fs (replace_folder component left ds))
  ]
]

-- filesystem_remove_file_at_path
unfoldable pub filesystem_remove_file_at_path : ℕ → FileSystem → Name → Option FileSystem
unfolding get_path_components remove_file_at_path
filesystem_remove_file_at_path fuel fs path = elim (get_path_components fuel path) [
  | none ↦ none
  | some components ↦ elim (remove_file_at_path components fs.root) [
    | none ↦ none
    | some root ↦ some (record fs { root = root })
  ]
]
