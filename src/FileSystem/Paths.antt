-- ===== src/FileSystem/Paths.antt =====
-- What a tree of FileSystem.c holds at each path, and the trees in which names are distinct.
use seven_deadly_syns.Prelude.{
  ◌≡◌, ◌≢◌, refl, ap, ◌∙◌, false, none, some, List, [], ◌∷◌, arith, Bool-cases, inl, inr,
}
use mathlib.Core.Path.{subst}
use seven_deadly_syns.FileSystem.Types.{
  Name, File, Folder, Folders, folder, nil, cons, files, folders, folder_name, find_folder,
  erase_folder, replace_folder, name_eq, name_eq_iff,
}

-- The files of the folder that a path of names leads to, through the first folder of each
-- name; none if there is no such folder.
unfoldable pub files_at : List Name → Folder → List File
files_at [] f = files f
files_at (n ∷ p) f = elim (find_folder n (folders f)) [ none ↦ [] | some d ↦ files_at p d ]

-- The names of the folders of a queue differ.
abbrev pub NamesDiffer : Folders → Type 0
NamesDiffer nil = Unit {0}
NamesDiffer (cons d ds) = (find_folder (folder_name d) ds ≡ none) × NamesDiffer ds

-- They differ in every folder of the tree.
mutual
  pub data IsDistinct : Folder → Type 0 where
    distinct :
        {n : Name} {fs : List File} {ds : Folders}
        → NamesDiffer ds
        → AreDistinct ds
        → IsDistinct (folder n fs ds)

  pub data AreDistinct : Folders → Type 0 where
    none_left : AreDistinct nil
    one_more : {d : Folder} {ds : Folders} → IsDistinct d → AreDistinct ds → AreDistinct (cons d ds)

pub find_folder-name :
    (n : Name) (ds : Folders) (d : Folder) → find_folder n ds ≡ some d → folder_name d ≡ n
unfolding find_folder
find_folder-name n nil d h = cc
find_folder-name n (cons e ds) d h =
    ground (arith, name_eq_iff n (folder_name e), find_folder-name n ds d)

pub find_folder-erase_self :
    (n : Name) (ds : Folders) → NamesDiffer ds → find_folder n (erase_folder n ds) ≡ none
unfolding find_folder erase_folder
find_folder-erase_self n nil u = refl
find_folder-erase_self n (cons e ds) u =
    ground (arith, name_eq_iff n (folder_name e), find_folder-erase_self n ds u.1)

pub find_folder-erase_ne :
    (n m : Name) (ds : Folders) → n ≢ m → find_folder n (erase_folder m ds) ≡ find_folder n ds
unfolding find_folder erase_folder
find_folder-erase_ne n m nil ne = refl
find_folder-erase_ne n m (cons e ds) ne = ground (
  arith,
  name_eq_iff n (folder_name e),
  name_eq_iff m (folder_name e),
  find_folder-erase_ne n m ds,
)

pub find_folder-replace_self :
    (n : Name) (e d : Folder) (ds : Folders)
    → folder_name e ≡ n
    → find_folder n ds ≡ some d
    → find_folder n (replace_folder n e ds) ≡ some e
unfolding find_folder replace_folder
find_folder-replace_self n e d nil h f = cc
find_folder-replace_self n e d (cons c ds) h f = ground (
  arith,
  name_eq_iff n (folder_name c),
  name_eq_iff n (folder_name e),
  find_folder-replace_self n e d ds h,
)

pub find_folder-replace_ne :
    (n m : Name) (e : Folder) (ds : Folders)
    → n ≢ m
    → folder_name e ≡ m
    → find_folder n (replace_folder m e ds) ≡ find_folder n ds
unfolding find_folder replace_folder
find_folder-replace_ne n m e nil ne h = refl
find_folder-replace_ne n m e (cons c ds) ne h = ground (
  arith,
  name_eq_iff n (folder_name c),
  name_eq_iff m (folder_name c),
  name_eq_iff n (folder_name e),
  find_folder-replace_ne n m e ds,
)

name-ne : {n m : Name} → name_eq n m ≡ false → m ≢ n
name-ne {n} {m} miss e = ground (arith, name_eq_iff n m)

pub erase-NamesDiffer : (n : Name) (ds : Folders) → NamesDiffer ds → NamesDiffer (erase_folder n ds)
unfolding erase_folder
erase-NamesDiffer n nil u = tt
erase-NamesDiffer n (cons e ds) u = elim (Bool-cases (name_eq n (folder_name e))) [
  | inl hit ↦ rw hit u.1
  | inr miss ↦
      rw miss
        (find_folder-erase_ne (folder_name e) n ds (name-ne miss) ∙ u.0, erase-NamesDiffer n ds u.1)
]

pub replace-NamesDiffer :
    (n : Name) (e : Folder) (ds : Folders)
    → folder_name e ≡ n
    → NamesDiffer ds
    → NamesDiffer (replace_folder n e ds)
unfolding replace_folder
replace-NamesDiffer n e nil h u = tt
replace-NamesDiffer n e (cons c ds) h u = elim (Bool-cases (name_eq n (folder_name c))) [
  | inl hit ↦
      rw hit (ap (λ m. find_folder m ds) (h ∙ (name_eq_iff n (folder_name c)).0 hit) ∙ u.0, u.1)
  | inr miss ↦ rw miss (
    find_folder-replace_ne (folder_name c) n e ds (name-ne miss) h ∙ u.0,
    replace-NamesDiffer n e ds h u.1,
  )
]

-- A folder that is found is as distinct as the queue that holds it.
pub find_folder-IsDistinct :
    (n : Name) (ds : Folders) (d : Folder)
    → AreDistinct ds
    → find_folder n ds ≡ some d
    → IsDistinct d
unfolding find_folder
find_folder-IsDistinct n nil d a h = cc
find_folder-IsDistinct n (cons e ds) d (one_more first rest) h =
    elim (Bool-cases (name_eq n (folder_name e))) [
      | inl hit ↦ let same : e ≡ d = ground arith in subst IsDistinct same first
      | inr miss ↦ find_folder-IsDistinct n ds d rest (ground arith)
    ]
