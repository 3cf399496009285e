-- ===== src/FileSystem/Update/Files.antt =====
-- The loops over the files of folder_remove and folder_add.
use mathlib.Core.List.{append-nil, append_assoc}
use seven_deadly_syns.Prelude.{
  ◌≡◌, ◌≢◌, refl, sym, ap, ◌∙◌, true, false, ◌&&◌, ◌||◌, if◌then◌else◌, none, some, List, [], ◌∷◌,
  ◌++◌, arith, Bool-cases, Option-cases, inl, inr,
}
use seven_deadly_syns.Queue.Spec
use seven_deadly_syns.FileSystem.Types.{
  Name, File, Folder, Folders, folder, nil, cons, folder_name, find_folder, erase_folder,
  push_folder, file_equals, file_equals_iff, name_eq, name_eq_iff,
}
use seven_deadly_syns.FileSystem.Paths.{
  NamesDiffer, find_folder-erase_self, find_folder-erase_ne, erase-NamesDiffer,
}
use seven_deadly_syns.FileSystem.Subtract.{subtract_files}
use seven_deadly_syns.FileSystem.Diff.{has, NoRepeat, has-erase, erase-NoRepeat}
use seven_deadly_syns.FileSystem.Update.{remove_folder_of, remove_files, add_file, add_files}
use seven_deadly_syns.FileSystem.Update.Good.{folder_file, is_some, AreProper}

find-has : (t : File) (fs : List File) → has t fs ≡ true → Spec.find (file_equals t) fs ≡ some t
unfolding has Spec.find
find-has t [] h = cc
find-has t (f ∷ fs) h = ground (arith, file_equals_iff t f, find-has t fs)

find-lacks : (t : File) (fs : List File) → has t fs ≡ false → Spec.find (file_equals t) fs ≡ none
unfolding has Spec.find
find-lacks t [] h = refl
find-lacks t (f ∷ fs) h = ground (arith, find-lacks t fs)

-- A folder entry against a file.
folder_file-equals :
    (n : Name) (t : File)
    → (t.is_folder ≡ true → t ≡ folder_file t.name)
    → file_equals (folder_file n) t ≡ (t.is_folder && name_eq n t.name)
folder_file-equals n t h = elim (Bool-cases (t.is_folder)) [
  | inl yes_folder ↦
      ground (arith, h yes_folder, file_equals_iff (folder_file n) t, name_eq_iff n t.name)
  | inr no_folder ↦ ground (arith, file_equals_iff (folder_file n) t)
]

pub remove_files-files :
    (ts fs : List File) (ds : Folders)
    → (remove_files ts fs ds).0 ≡ subtract_files file_equals ts fs
unfolding remove_files subtract_files
remove_files-files [] fs ds = refl
remove_files-files (t ∷ ts) fs ds =
    remove_files-files ts (Spec.erase (file_equals t) fs)
      (remove_folder_of (Spec.find (file_equals t) fs) ds)

remove_folder_of-find :
    (t : File) (ds : Folders) (n : Name)
    → (t.is_folder ≡ true → t ≡ folder_file t.name)
    → NamesDiffer ds
    → (find_folder n (remove_folder_of (some t) ds)
        ≡ (if file_equals (folder_file n) t then none else find_folder n ds))
      × NamesDiffer (remove_folder_of (some t) ds)
unfolding remove_folder_of
remove_folder_of-find t ds n h u = rw (folder_file-equals n t h) (elim (Bool-cases (t.is_folder)) [
  | inl is ↦ rw is (found, erase-NamesDiffer t.name ds u)
  | inr not_folder ↦ rw not_folder (refl, u)
])
  where
    found :
        find_folder n (erase_folder t.name ds)
        ≡ (if name_eq n t.name then none else find_folder n ds)
    found = elim (Bool-cases (name_eq n t.name)) [
      | inl hit ↦ rw hit (
          ap (λ m. find_folder m (erase_folder t.name ds)) ((name_eq_iff n t.name).0 hit)
          ∙ find_folder-erase_self t.name ds u)
      | inr miss ↦
          rw miss (find_folder-erase_ne n t.name ds (λ e. ground (arith, name_eq_iff n t.name)))
    ]

-- The folders that the first loop of folder_remove leaves, if all the files are there.
pub remove_files-folders :
    (ts fs : List File) (ds : Folders) (n : Name)
    → NoRepeat ts
    → NoRepeat fs
    → AreProper ts
    → ((x : File) → has x ts ≡ true → has x fs ≡ true)
    → NamesDiffer ds
    → (find_folder n (remove_files ts fs ds).1
        ≡ (if has (folder_file n) ts then none else find_folder n ds))
      × NamesDiffer (remove_files ts fs ds).1
unfolding remove_files has
remove_files-folders [] fs ds n ut uf proper sub u = (refl, u)
remove_files-folders (t ∷ ts) fs ds n ut uf proper sub u =
    let there : Spec.find (file_equals t) fs ≡ some t =
      find-has t fs (sub t (ground (arith, file_equals_iff t t))) in
    let (first, u') = remove_folder_of-find t ds n proper.0 u in
    let (rest, u'') =
      remove_files-folders ts (Spec.erase (file_equals t) fs) (remove_folder_of (some t) ds) n ut.1
        (erase-NoRepeat t fs uf) proper.1
        (λ x i. has-erase x t fs uf ∙ ground (arith, sub x, file_equals_iff x t)) u' in
    rw (there, remove_files) (rest ∙ ground (arith, first), u'')

pub has-append : (x : File) (fs gs : List File) → has x (fs ++ gs) ≡ (has x fs || has x gs)
unfolding has
has-append x [] gs = refl
has-append x (f ∷ fs) gs = ground (arith, has-append x fs gs)

abbrev pub bare : Name → Folder
bare n = folder n [] nil

push-find_ne :
    (n m : Name) (ds : Folders) → n ≢ m → find_folder n (push_folder ds (bare m)) ≡ find_folder n ds
unfolding push_folder find_folder
push-find_ne n m nil ne = ground (arith, name_eq_iff n m)
push-find_ne n m (cons d ds) ne = ground (arith, push-find_ne n m ds ne)

push-find_self :
    (m : Name) (ds : Folders)
    → find_folder m ds ≡ none
    → find_folder m (push_folder ds (bare m)) ≡ some (bare m)
unfolding push_folder find_folder
push-find_self m nil h = ground (arith, name_eq_iff m m)
push-find_self m (cons d ds) h = ground (arith, push-find_self m ds)

push-NamesDiffer :
    (m : Name) (ds : Folders)
    → find_folder m ds ≡ none
    → NamesDiffer ds
    → NamesDiffer (push_folder ds (bare m))
unfolding push_folder find_folder
push-NamesDiffer m nil h u = (refl, tt)
push-NamesDiffer m (cons d ds) h u = (
  push-find_ne (folder_name d) m ds (λ e. ground (arith, name_eq_iff m (folder_name d))) ∙ u.0,
  push-NamesDiffer m ds (ground arith) u.1,
)

-- What the round of the first loop of folder_add for a new file leaves.
record Entered (us : Folders) (t : File) (fs : List File) (ds : Folders) : Type 0 where
  left : Folders
  runs : add_file us t fs ds ≡ some (fs ++ (t ∷ []), left)
  differ : NamesDiffer left
  finds :
      (n : Name)
      → find_folder n left
        ≡ (if file_equals (folder_file n) t then some (bare n) else find_folder n ds)

add_file-Entered :
    (us : Folders) (t : File) (fs : List File) (ds : Folders)
    → has t fs ≡ false
    → (t.is_folder ≡ true → t ≡ folder_file t.name)
    → (t.is_folder ≡ true → is_some (find_folder t.name us) ≡ true)
    → (t.is_folder ≡ true → find_folder t.name ds ≡ none)
    → NamesDiffer ds
    → Entered us t fs ds
add_file-Entered us t fs ds fresh proper wanted free u = elim (Bool-cases (t.is_folder)) [
  | inl is ↦ record {
    left = push_folder ds (bare t.name);
    runs = runs_folder is;
    differ = push-NamesDiffer t.name ds (free is) u;
    finds = λ n.
        rw (folder_file-equals n t proper, is)
          (elim (Bool-cases (name_eq n t.name)) [
            | inl hit ↦
                let e : n ≡ t.name = (name_eq_iff n t.name).0 hit in
                rw hit (
                  ap (λ m. find_folder m (push_folder ds (bare t.name))) e
                  ∙ push-find_self t.name ds (free is)
                  ∙ ap (λ m. some (bare m)) (sym e))
            | inr miss ↦
                rw miss (push-find_ne n t.name ds (λ e. ground (arith, name_eq_iff n t.name)))
          ]);
  }
  | inr not_folder ↦ record {
    left = ds;
    runs = runs_file not_folder;
    differ = u;
    finds = λ n. rw (folder_file-equals n t proper, not_folder) refl;
  }
]
  where
    missing : Spec.find (file_equals t) fs ≡ none
    missing = find-lacks t fs fresh

    runs_folder :
        t.is_folder ≡ true
        → add_file us t fs ds ≡ some (fs ++ (t ∷ []), push_folder ds (bare t.name))
    runs_folder is = elim (Option-cases (find_folder t.name us)) [
      | inl none_there ↦ absurd (let no_folder = wanted is in ground arith)
      | inr (d, e) ↦ unfold add_file in ground (arith, is, e, missing, free is)
    ]

    runs_file : t.is_folder ≡ false → add_file us t fs ds ≡ some (fs ++ (t ∷ []), ds)
    runs_file is = unfold add_file in ground (arith, is, missing)

-- What the first loop of folder_add leaves: all the files, and an empty folder for each folder entry.
pub record AddedFiles (us : Folders) (ts fs : List File) (ds : Folders) : Type 0 where
  pub left : Folders
  pub runs : add_files us ts fs ds ≡ some (fs ++ ts, left)
  pub differ : NamesDiffer left
  pub finds :
      (n : Name)
      → find_folder n left ≡ (if has (folder_file n) ts then some (bare n) else find_folder n ds)

add_files-cons :
    (us : Folders) (t : File) (ts fs fs' : List File) (ds ds' : Folders)
    → add_file us t fs ds ≡ some (fs', ds')
    → add_files us (t ∷ ts) fs ds ≡ add_files us ts fs' ds'
unfolding add_files
add_files-cons us t ts fs fs' ds ds' e = rw (e, add_files) refl

is_folder_file : (t : File) → t ≡ folder_file t.name → has (folder_file t.name) (t ∷ []) ≡ true
unfolding has
is_folder_file t e = ground (arith, file_equals_iff (folder_file t.name) t)

pub add_files_lem :
    (us : Folders) (ts fs : List File) (ds : Folders)
    → NoRepeat ts
    → AreProper ts
    → ((x : File) → has x ts ≡ true → has x fs ≡ false)
    → ((n : Name) → has (folder_file n) ts ≡ true → is_some (find_folder n us) ≡ true)
    → ((n : Name) → has (folder_file n) ts ≡ true → find_folder n ds ≡ none)
    → NamesDiffer ds
    → AddedFiles us ts fs ds
unfolding has
add_files_lem us [] fs ds ut proper fresh wanted free u = record {
  left = ds;
  runs = unfold add_files in ap (λ xs. some (xs, ds)) (sym (append-nil fs));
  differ = u;
  finds = λ n. refl;
}
add_files_lem us (t ∷ ts) fs ds ut proper fresh wanted free u =
    let own : t.is_folder ≡ true → has (folder_file t.name) (t ∷ ts) ≡ true =
      λ is. ground (arith, file_equals_iff (folder_file t.name) t, proper.0 is) in
    let first =
      add_file-Entered us t fs ds (fresh t (ground (arith, file_equals_iff t t))) proper.0
        (λ is. wanted t.name (own is)) (λ is. free t.name (own is)) u in
    let rest =
      add_files_lem us ts (fs ++ (t ∷ [])) first.left ut.1 proper.1
        (λ x i. has-append x fs (t ∷ []) ∙ ground (arith, fresh x, file_equals_iff x t))
        (λ n i. wanted n (ground (arith, i)))
        (λ n i. first.finds n ∙ ground (arith, free n, file_equals_iff (folder_file n) t))
        first.differ in
    record {
      left = rest.left;
      runs =
          add_files-cons us t ts fs (fs ++ (t ∷ [])) ds first.left first.runs
          ∙ rest.runs
          ∙ ap (λ xs. some (xs, rest.left)) (append_assoc fs (t ∷ []) ts);
      differ = rest.differ;
      finds = λ n. rest.finds n ∙ ground (arith, first.finds n);
    }
