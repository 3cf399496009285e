-- ===== src/FileSystem/Listing/Order.antt =====
-- What the iterator lists, and in which order.
use mathlib.Core.List.{Perm}
use mathlib.Core.List.Perm
use mathlib.Core.List.{append_assoc, perm_append_comm}
use mathlib.Core.Path.{subst}
use seven_deadly_syns.Prelude.{
  ◌≡◌, refl, sym, ap, ap₂, ◌∙◌, Bool, true, false, ◌||◌, if◌then◌else◌, none, some, List, [], ◌∷◌,
  ◌++◌, arith, Bool-cases, Option-cases, inl, inr,
}
use seven_deadly_syns.FileSystem.Types.{
  Name, File, Folder, Folders, folder, nil, cons, files, folders, folder_name, find_folder,
  file_equals, file_equals_iff, name_eq, name_eq_iff,
}
use seven_deadly_syns.FileSystem.Paths.{
  files_at, NamesDiffer, IsDistinct, AreDistinct, distinct, one_more,
}
use seven_deadly_syns.FileSystem.Diff.{has}
use seven_deadly_syns.FileSystem.Update.Files.{has-append}
use seven_deadly_syns.FileSystem.Listing.{
  path_to, listed_files, listed_folders, file_first, file_first_all, folder_first, folder_first_all,
}

-- Three parts in the other order.
turn :
    {A : Type 0} (xs ys ys' zs : List A) → Perm ys ys' → Perm (xs ++ (ys ++ zs)) (zs ++ (ys' ++ xs))
turn xs ys ys' zs h = subst (Perm (xs ++ (ys ++ zs))) (append_assoc zs ys' xs) (
    Perm.trans (perm_append_comm xs (ys ++ zs))
      (Perm.append_right xs (Perm.trans (perm_append_comm ys zs) (Perm.append_left zs h))))

mutual
  unfolding file_first folder_first

  -- Both orders list the same entries.
  pub file_first-Perm : (path : Name) (f : Folder) → Perm (file_first path f) (folder_first path f)
  file_first-Perm path (folder n fs ds) =
      turn (listed_files path fs) (file_first_all path ds) (folder_first_all path ds)
        (listed_folders path fs) (file_first_all-Perm path ds)

  file_first_all-Perm :
      (path : Name) (ds : Folders) → Perm (file_first_all path ds) (folder_first_all path ds)
  file_first_all-Perm path nil = Perm.refl []
  file_first_all-Perm path (cons (folder n fs ds) rest) =
      Perm.append (file_first-Perm (path_to path n) (folder n fs ds))
        (file_first_all-Perm path rest)

-- The path of a folder below the folder at `base`.
abbrev pub path_of : Name → List Name → Name
path_of base [] = base
path_of base (n ∷ p) = path_of (path_to base n) p

-- The entry of a file of the folder at `base`.
abbrev pub entry_at : Name → File → File
entry_at base x = record {
  name = path_to base x.name;
  size = if x.is_folder then 0 else x.size;
  last_modified = if x.is_folder then 0 else x.last_modified;
  is_folder = x.is_folder;
}

has_entry :
    (base : Name) (x : File) (fs : List File)
    → has x fs ≡ true
    → (has (entry_at base x) (listed_files base fs)
        || has (entry_at base x) (listed_folders base fs))
      ≡ true
unfolding listed_files listed_folders has
has_entry base x [] h = cc
has_entry base x (f ∷ fs) h = elim (Bool-cases (file_equals x f)) [
  | inl hit ↦
      let same : x ≡ f = (file_equals_iff x f).0 hit in
      subst
        (λ y.
          (has (entry_at base y) (listed_files base (f ∷ fs))
            || has (entry_at base y) (listed_folders base (f ∷ fs)))
          ≡ true)
        (sym same) (ground (arith, file_equals_iff (entry_at base f) (entry_at base f)))
  | inr miss ↦ ground (arith, has_entry base x fs)
]

-- A file that is listed under a path.
pub record ListedAt (base : Name) (f : Folder) (y : File) : Type 0 where
  pub path : List Name
  pub file : File
  pub there : has file (files_at path f) ≡ true
  pub entry : y ≡ entry_at (path_of base path) file

-- The same below the folders of a queue.
record ListedBelow (base : Name) (ds : Folders) (y : File) : Type 0 where
  name : Name
  child : Folder
  found : find_folder name ds ≡ some child
  listed : ListedAt (path_to base name) child y

entry_has :
    (base : Name) (y : File) (fs : List File)
    → (has y (listed_files base fs) || has y (listed_folders base fs)) ≡ true
    → (x : File) × (has x fs ≡ true) × (y ≡ entry_at base x)
unfolding listed_files listed_folders has
entry_has base y [] h = cc
entry_has base y (f ∷ fs) h = elim (Bool-cases (file_equals y (entry_at base f))) [
  | inl hit ↦ (f, ground (arith, file_equals_iff f f), (file_equals_iff y (entry_at base f)).0 hit)
  | inr miss ↦
      (let (x, there, e) = entry_has base y fs (ground (arith, h, miss)) in
        (x, ground (arith, there), e))
]

files_at-child :
    (n : Name) (p : List Name) (f d : Folder)
    → find_folder n (folders f) ≡ some d
    → files_at (n ∷ p) f ≡ files_at p d
unfolding files_at
files_at-child n p f d e = ground (arith, e)

find-differs :
    (n m : Name) (d e : Folder) (ds : Folders)
    → find_folder (folder_name d) ds ≡ none
    → find_folder m ds ≡ some e
    → find_folder m (cons d ds) ≡ some e
unfolding find_folder
find-differs n m d e ds gone found = elim (Bool-cases (name_eq m (folder_name d))) [
  | inl hit ↦ absurd (
      let same = ap (λ k. find_folder k ds) ((name_eq_iff m (folder_name d)).0 hit) in
      ground (arith, same, gone, found))
  | inr miss ↦ rw miss found
]

listed-child :
    (base m : Name) (ds : Folders) (d : Folder) (y : File)
    → find_folder m ds ≡ some d
    → has y (file_first (path_to base m) d) ≡ true
    → has y (file_first_all base ds) ≡ true
unfolding file_first find_folder
listed-child base m nil d y found h = cc
listed-child base m (cons (folder n fs ds) rest) d y found h =
    has-append y (file_first (path_to base n) (folder n fs ds)) (file_first_all base rest)
    ∙ elim (Bool-cases (name_eq m n)) [
      | inl hit ↦
          let same : m ≡ n = (name_eq_iff m n).0 hit in
          let same_folder : folder n fs ds ≡ d = ground (arith, found) in
          let here : has y (file_first (path_to base n) (folder n fs ds)) ≡ true =
            ap₂ (λ k e. has y (file_first (path_to base k) e)) (sym same) same_folder ∙ h in
          ap (λ b. b || has y (file_first_all base rest)) here
      | inr miss ↦
          let below : has y (file_first_all base rest) ≡ true =
            listed-child base m rest d y (ground (arith, found)) h in
          ap (λ b. has y (file_first (path_to base n) (folder n fs ds)) || b) below ∙ or-true _
    ]
  where
    or-true : (b : Bool) → (b || true) ≡ true
    or-true true = refl
    or-true false = refl

has-below :
    (base n : Name) (fs : List File) (ds : Folders) (y : File)
    → has y (file_first_all base ds) ≡ true
    → has y (file_first base (folder n fs ds)) ≡ true
unfolding file_first
has-below base n fs ds y below =
    has-append y (listed_files base fs) (file_first_all base ds ++ listed_folders base fs)
    ∙ ground (arith, has-append y (file_first_all base ds) (listed_folders base fs), below)

files_at-root : (f : Folder) → files_at [] f ≡ files f
unfolding files_at
files_at-root f = refl

find_self :
    (n : Name) (fs : List File) (ds rest : Folders)
    → find_folder n (cons (folder n fs ds) rest) ≡ some (folder n fs ds)
unfolding find_folder
find_self n fs ds rest = ground (arith, name_eq_iff n n)

complete :
    (p : List Name) (base : Name) (f : Folder) (x : File)
    → has x (files_at p f) ≡ true
    → has (entry_at (path_of base p) x) (file_first base f) ≡ true
complete [] base (folder n fs ds) x h =
    let y = entry_at base x in
    unfold file_first in
    (has-append y (listed_files base fs) (file_first_all base ds ++ listed_folders base fs)
      ∙ ground (
        arith,
        has-append y (file_first_all base ds) (listed_folders base fs),
        has_entry base x fs (unfold files_at in h),
      ))
complete (m ∷ p) base (folder n fs ds) x h = elim (Option-cases (find_folder m ds)) [
  | inl missing ↦ absurd (unfold files_at has in ground (arith, h, missing))
  | inr (d, found) ↦
      let y = entry_at (path_of base (m ∷ p)) x in
      let below = listed-child base m ds d y found (
        complete p (path_to base m) d x
          (ap (has x) (sym (files_at-child m p (folder n fs ds) d found)) ∙ h)) in
      has-below base n fs ds y below
]

mutual
  unfolding file_first has

  sound :
      (base : Name) (f : Folder) (y : File)
      → IsDistinct f
      → has y (file_first base f) ≡ true
      → ListedAt base f y
  sound base (folder n fs ds) y (distinct differ below) h =
      elim (Bool-cases (has y (file_first_all base ds))) [
        | inl inside ↦
            let l = sound_all base ds y differ below inside in
            record {
              path = l.name ∷ l.listed.path;
              file = l.listed.file;
              there =
                  ap (has l.listed.file)
                    (files_at-child l.name l.listed.path (folder n fs ds) l.child l.found)
                  ∙ l.listed.there;
              entry = l.listed.entry;
            }
        | inr outside ↦
            let split =
              has-append y (listed_files base fs)
                (file_first_all base ds ++ listed_folders base fs) in
            let split' = has-append y (file_first_all base ds) (listed_folders base fs) in
            let (x, there, e) = entry_has base y fs (ground (arith, split, split', outside, h)) in
            record {
              path = [];
              file = x;
              there = ap (has x) (files_at-root (folder n fs ds)) ∙ there;
              entry = e;
            }
      ]

  sound_all :
      (base : Name) (ds : Folders) (y : File)
      → NamesDiffer ds
      → AreDistinct ds
      → has y (file_first_all base ds) ≡ true
      → ListedBelow base ds y
  sound_all base nil y u below h = cc
  sound_all base (cons (folder n fs ds) rest) y u (one_more first others) h =
      elim (Bool-cases (has y (file_first (path_to base n) (folder n fs ds)))) [
        | inl here ↦ record {
          name = n;
          child = folder n fs ds;
          found = find_self n fs ds rest;
          listed = sound (path_to base n) (folder n fs ds) y first here;
        }
        | inr elsewhere ↦
            let split =
              has-append y (file_first (path_to base n) (folder n fs ds))
                (file_first_all base rest) in
            let l = sound_all base rest y u.1 others (ground (arith, split, elsewhere, h)) in
            record {
              name = l.name;
              child = l.child;
              found = find-differs n l.name (folder n fs ds) l.child rest u.0 l.found;
              listed = l.listed;
            }
      ]

-- The iterator lists, under its whole path, every file and folder entry of every folder of the tree,
-- and nothing else; both orders give the same entries. Folders of one parent have different names.
pub listing_lem :
    (base : Name) (f : Folder)
    → IsDistinct f
    → ((p : List Name) (x : File)
        → has x (files_at p f) ≡ true
        → has (entry_at (path_of base p) x) (file_first base f) ≡ true)
      × ((y : File) → has y (file_first base f) ≡ true → ListedAt base f y)
      × Perm (file_first base f) (folder_first base f)
listing_lem base f u = (λ p x. complete p base f x, λ y. sound base f y u, file_first-Perm base f)
