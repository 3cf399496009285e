-- ===== src/FileSystem/Types.antt =====
-- `_File`, `_Folder` and `_FileSystem` of utility/FileSystem/FileSystem.c, and the tests on them.
use seven_deadly_syns.Prelude.{
  ℕ, ◌≡◌, ◌↔◌, refl, Bool, true, false, ◌&&◌, ◌==◌, leb, ltb, if◌then◌else◌, Option, none, some,
  List, [], ◌∷◌, arith, Ptr,
}

-- A C string: its bytes, without the terminating 0.
abbrev pub Name : Type 0
Name = List ℕ

-- `strcmp(a, b) == 0`.
unfoldable pub name_eq : Name → Name → Bool
name_eq [] [] = true
name_eq [] (y ∷ ys) = false
name_eq (x ∷ xs) [] = false
name_eq (x ∷ xs) (y ∷ ys) = (x == y) && name_eq xs ys

pub name_eq_iff : (a b : Name) → (name_eq a b ≡ true) ↔ (a ≡ b)
unfolding name_eq
name_eq_iff [] [] = (λ h. refl, λ h. refl)
name_eq_iff [] (y ∷ ys) = (λ h. cc, λ h. cc)
name_eq_iff (x ∷ xs) [] = (λ h. cc, λ h. cc)
name_eq_iff (x ∷ xs) (y ∷ ys) = ground (arith, name_eq_iff xs ys)

-- `_File`. Sizes and times are numbers, `is_folder` is a flag. A folder has a `_File` of its own
-- beside it, with size and time 0.
pub record File : Type 0 where
  pub name : Name
  pub size : ℕ
  pub last_modified : ℕ
  pub is_folder : Bool

-- `_Folder`. `Folders` is the queue of the child folders.
mutual
  pub data Folder : Type 0 where
    folder : Name → List File → Folders → Folder

  pub data Folders : Type 0 where
    nil : Folders
    cons : Folder → Folders → Folders

abbrev pub folder_name : Folder → Name
folder_name (folder n fs ds) = n

abbrev pub files : Folder → List File
files (folder n fs ds) = fs

abbrev pub folders : Folder → Folders
folders (folder n fs ds) = ds

-- `_FileSystem`; `root_path` may be NULL.
pub record FileSystem : Type 0 where
  pub root_path : Ptr Name
  pub root : Folder

unfoldable pub same_flag : Bool → Bool → Bool
same_flag true true = true
same_flag false false = true
same_flag _ _ = false

same_flag_iff : (a b : Bool) → (same_flag a b ≡ true) ↔ (a ≡ b)
unfolding same_flag
same_flag_iff true true = (λ h. refl, λ h. refl)
same_flag_iff true false = (λ h. cc, λ h. cc)
same_flag_iff false true = (λ h. cc, λ h. cc)
same_flag_iff false false = (λ h. refl, λ h. refl)

-- The tests that queue_search and queue_remove are given: the key comes first.
unfoldable pub file_equals_name_only : File → File → Bool
file_equals_name_only f0 f1 = name_eq f0.name f1.name

unfoldable pub file_equals : File → File → Bool
file_equals f0 f1 =
    name_eq f0.name f1.name
    && (f0.size == f1.size)
    && (f0.last_modified == f1.last_modified)
    && same_flag f0.is_folder f1.is_folder

unfoldable pub file_ignore_time : File → File → Bool
file_ignore_time f0 f1 =
    name_eq f0.name f1.name && (f0.size == f1.size) && same_flag f0.is_folder f1.is_folder

unfoldable pub file_older : File → File → Bool
file_older f0 f1 =
    name_eq f0.name f1.name
    && leb f0.last_modified f1.last_modified
    && same_flag f0.is_folder f1.is_folder

unfoldable pub file_newer : File → File → Bool
file_newer f0 f1 =
    name_eq f0.name f1.name
    && ltb f1.last_modified f0.last_modified
    && same_flag f0.is_folder f1.is_folder

-- file_equals is equality of all four fields.
pub file_equals_iff : (a b : File) → (file_equals a b ≡ true) ↔ (a ≡ b)
unfolding file_equals
file_equals_iff a b =
    ground (arith, name_eq_iff a.name b.name, same_flag_iff a.is_folder b.is_folder)

-- queue_search, queue_remove and a change in place, for folder_equals: the names agree.
unfoldable pub find_folder : Name → Folders → Option Folder
find_folder n nil = none
find_folder n (cons d ds) = if name_eq n (folder_name d) then some d else find_folder n ds

unfoldable pub erase_folder : Name → Folders → Folders
erase_folder n nil = nil
erase_folder n (cons d ds) = if name_eq n (folder_name d) then ds else cons d (erase_folder n ds)

unfoldable pub replace_folder : Name → Folder → Folders → Folders
replace_folder n e nil = nil
replace_folder n e (cons d ds) =
    if name_eq n (folder_name d) then cons e ds else cons d (replace_folder n e ds)

-- queue_push
unfoldable pub push_folder : Folders → Folder → Folders
push_folder nil e = cons e nil
push_folder (cons d ds) e = cons d (push_folder ds e)
