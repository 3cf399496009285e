-- ===== src/FileSystem/Update/Good.antt =====
-- The trees that folder_new builds: one entry for each file, and beside each child folder an entry
-- of its name with size and time 0.
use seven_deadly_syns.Prelude.{
  ℕ, suc, ◌+◌, ◌≤◌, ◌<◌, ◌≡◌, refl, ap, Bool, true, false, Option, none, some, List, [], ◌∷◌, arith,
  Bool-cases, inl, inr,
}
use seven_deadly_syns.FileSystem.Types.{
  Name, File, Folder, Folders, folder, nil, cons, files, folders, folder_name, find_folder, name_eq,
}
use seven_deadly_syns.FileSystem.Paths.{NamesDiffer}
use seven_deadly_syns.FileSystem.Diff.{has, NoRepeat}

-- The entry that stands for a child folder.
abbrev pub folder_file : Name → File
folder_file n = record { name = n; size = 0; last_modified = 0; is_folder = true }

abbrev pub is_some {ℓ} : {A : Type ℓ} → Option A → Bool
is_some none = false
is_some (some a) = true

-- Each folder entry of the list is the one of its name.
abbrev pub AreProper : List File → Type 0
AreProper [] = Unit {0}
AreProper (f ∷ fs) = (f.is_folder ≡ true → f ≡ folder_file f.name) × AreProper fs

-- One folder of a tree.
pub record Level (fs : List File) (ds : Folders) : Type 0 where
  pub no_repeat : NoRepeat fs
  pub proper : AreProper fs
  pub differ : NamesDiffer ds
  pub entries : (n : Name) → has (folder_file n) fs ≡ is_some (find_folder n ds)

pub data Good : Folder → Type 0 where
  good :
      (n : Name) (fs : List File) (ds : Folders)
      → Level fs ds
      → ((m : Name) (d : Folder) → find_folder m ds ≡ some d → Good d)
      → Good (folder n fs ds)

pub Good-Level : (f : Folder) → Good f → Level (files f) (folders f)
Good-Level (folder n fs ds) (good _ _ _ level below) = level

pub Good-child :
    (f : Folder) → Good f → (m : Name) (d : Folder) → find_folder m (folders f) ≡ some d → Good d
Good-child (folder n fs ds) (good _ _ _ level below) m d e = below m d e

pub empty-Good : (n : Name) → Good (folder n [] nil)
unfolding has find_folder
empty-Good n =
    good n [] nil (record { no_repeat = tt; proper = tt; differ = tt; entries = λ m. refl })
      (λ m d e. cc)

-- How deep a tree is.
mutual
  pub depth : Folder → ℕ
  depth (folder n fs ds) = suc (depths ds)

  depths : Folders → ℕ
  depths nil = 0
  depths (cons d ds) = depth d + depths ds

depths-find :
    (n : Name) (ds : Folders) (d : Folder) → find_folder n ds ≡ some d → depth d ≤ depths ds
unfolding find_folder depths
depths-find n nil d e = cc
depths-find n (cons c ds) d e = elim (Bool-cases (name_eq n (folder_name c))) [
  | inl hit ↦ (let same : c ≡ d = ground arith in omega (arith, ap depth same))
  | inr miss ↦ omega (arith, depths-find n ds d (ground arith))
]

pub depth-child :
    (f : Folder) (n : Name) (d : Folder) → find_folder n (folders f) ≡ some d → depth d < depth f
unfolding depth
depth-child (folder m fs ds) n d e = omega (arith, depths-find n ds d e)

pub depth-positive : (f : Folder) → 0 < depth f
unfolding depth
depth-positive (folder m fs ds) = omega arith

pub depth-bare : (n : Name) → depth (folder n [] nil) ≡ 1
unfolding depth
depth-bare n = refl
