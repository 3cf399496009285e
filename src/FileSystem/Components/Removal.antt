-- ===== src/FileSystem/Components/Removal.antt =====
-- filesystem_remove_file_at_path: what a tree holds after the removal of the entry at a path.
use seven_deadly_syns.Prelude.{
  ℕ, ◌<◌, ◌≡◌, refl, sym, ap, ◌∙◌, Bool, true, false, ◌&&◌, if◌then◌else◌, some, List, [], ◌∷◌,
  ◌++◌, length, arith, Bool-cases, Option-cases, inl, inr,
}
use seven_deadly_syns.Queue.Spec
use seven_deadly_syns.FileSystem.Types.{
  Name, File, Folder, Folders, FileSystem, folder, folders, folder_name, find_folder, erase_folder,
  replace_folder, name_eq, name_eq_iff, file_equals, file_equals_iff,
}
use seven_deadly_syns.FileSystem.Paths.{
  files_at, find_folder-name, find_folder-erase_self, find_folder-erase_ne,
  find_folder-replace_self, find_folder-replace_ne,
}
use seven_deadly_syns.FileSystem.Diff.{has}
use seven_deadly_syns.FileSystem.Update.Good.{
  folder_file, AreProper, Level, Good, Good-Level, Good-child,
}
use seven_deadly_syns.FileSystem.Components.{
  get_path_components, remove_last, remove_file_at_path, filesystem_remove_file_at_path,
}
use seven_deadly_syns.FileSystem.Components.Split.{ArePlain, joined, get_path_components-joined}

abbrev pub named : Name → File → Bool
named n f = name_eq n f.name

unfoldable pub same_path : List Name → List Name → Bool
same_path [] [] = true
same_path [] (m ∷ q) = false
same_path (n ∷ p) [] = false
same_path (n ∷ p) (m ∷ q) = name_eq n m && same_path p q

-- Does the second path begin with the first?
unfoldable pub begins : List Name → List Name → Bool
begins [] q = true
begins (n ∷ p) [] = false
begins (n ∷ p) (m ∷ q) = name_eq n m && begins p q

-- What is left at the path `q` after the entry `n` of the folder at `p` was removed.
abbrev pub left_at : List Name → Name → Bool → List Name → Folder → List File
left_at p n is_dir q f =
    if same_path p q
    then Spec.erase (named n) (files_at q f)
    else if is_dir && begins (p ++ (n ∷ [])) q
    then []
    else files_at q f

find-named :
    (n : Name) (fs : List File) (x : File)
    → Spec.find (named n) fs ≡ some x
    → (has x fs ≡ true) × (x.name ≡ n)
unfolding Spec.find has
find-named n [] x h = cc
find-named n (f ∷ fs) x h = elim (Bool-cases (named n f)) [
  | inl hit ↦
      (let same : f ≡ x = ground (arith, h) in
        (
          ground (arith, file_equals_iff x f, sym same),
          ap (λ k. k.name) (sym same) ∙ sym ((name_eq_iff n f.name).0 hit),
        ))
  | inr miss ↦
      (let (there, e) = find-named n fs x (ground (arith, h)) in (ground (arith, there), e))
]

proper_at :
    (fs : List File) (x : File)
    → AreProper fs
    → has x fs ≡ true
    → x.is_folder ≡ true
    → x ≡ folder_file x.name
unfolding has
proper_at [] x p h is = cc
proper_at (f ∷ fs) x p h is = elim (Bool-cases (file_equals x f)) [
  | inl hit ↦
      (let same : x ≡ f = (file_equals_iff x f).0 hit in
        same
        ∙ p.0 (ap (λ k. k.is_folder) (sym same) ∙ is)
        ∙ ap (λ k. folder_file k.name) (sym same))
  | inr miss ↦ proper_at fs x p.1 (ground (arith, h)) is
]

-- The folder of a folder entry.
folder_there :
    (n : Name) (fs : List File) (ds : Folders) (x : File)
    → Level fs ds
    → Spec.find (named n) fs ≡ some x
    → x.is_folder ≡ true
    → (d : Folder) × (find_folder n ds ≡ some d)
folder_there n fs ds x level h is =
    let (there, e) = find-named n fs x h in
    let entry : has (folder_file n) fs ≡ true =
      ap (λ k. has k fs) (ap folder_file (sym e) ∙ sym (proper_at fs x level.proper there is))
      ∙ there in
    elim (Option-cases (find_folder n ds)) [
      | inl missing ↦ absurd (ground (arith, level.entries n, entry, missing))
      | inr found ↦ found
    ]

erase-at :
    (k n : Name) (q : List Name) (m : Name) (fs gs : List File) (ds : Folders)
    → Level fs ds
    → files_at (k ∷ q) (folder m gs (erase_folder n ds))
      ≡ (if name_eq n k then [] else files_at (k ∷ q) (folder m fs ds))
unfolding files_at
erase-at k n q m fs gs ds level = elim (Bool-cases (name_eq n k)) [
  | inl hit ↦ ground (arith, name_eq_iff n k, find_folder-erase_self n ds level.differ)
  | inr miss ↦
      ground
        (arith, name_eq_iff n k, find_folder-erase_ne k n ds (λ e. ground (arith, name_eq_iff n k)))
]

remove_last-file :
    (n m : Name) (fs : List File) (ds : Folders) (x : File)
    → Spec.find (named n) fs ≡ some x
    → x.is_folder ≡ false
    → remove_last n (folder m fs ds) ≡ some (folder m (Spec.erase (named n) fs) ds)
unfolding remove_last
remove_last-file n m fs ds x h is = ground (arith, h, is)

remove_last-folder :
    (n m : Name) (fs : List File) (ds : Folders) (x : File) (d : Folder)
    → Spec.find (named n) fs ≡ some x
    → x.is_folder ≡ true
    → find_folder n ds ≡ some d
    → remove_last n (folder m fs ds) ≡ some (folder m (Spec.erase (named n) fs) (erase_folder n ds))
unfolding remove_last
remove_last-folder n m fs ds x d h is e = ground (arith, h, is, e)

-- What the removal at a path gives.
record Removed (p : List Name) (n : Name) (is_dir : Bool) (f : Folder) : Type 0 where
  left : Folder
  runs : remove_file_at_path (p ++ (n ∷ [])) f ≡ some left
  name : folder_name left ≡ folder_name f
  holds : (q : List Name) → files_at q left ≡ left_at p n is_dir q f

last-Removed :
    (n m : Name) (fs : List File) (ds : Folders) (x : File)
    → Level fs ds
    → Spec.find (named n) fs ≡ some x
    → Removed [] n x.is_folder (folder m fs ds)
last-Removed n m fs ds x level h = elim (Bool-cases (x.is_folder)) [
  | inl is ↦
      (let (d, e) = folder_there n fs ds x level h is in
        record {
          left = folder m (Spec.erase (named n) fs) (erase_folder n ds);
          runs = unfold remove_file_at_path in remove_last-folder n m fs ds x d h is e;
          name = refl;
          holds = holds_folder is;
        })
  | inr is ↦ record {
    left = folder m (Spec.erase (named n) fs) ds;
    runs = unfold remove_file_at_path in remove_last-file n m fs ds x h is;
    name = refl;
    holds = holds_file is;
  }
]
  where
    holds_folder :
        x.is_folder ≡ true
        → (q : List Name)
        → files_at q (folder m (Spec.erase (named n) fs) (erase_folder n ds))
          ≡ left_at [] n x.is_folder q (folder m fs ds)
    holds_folder is [] = unfold files_at same_path in refl
    holds_folder is (k ∷ q) =
        erase-at k n q m fs (Spec.erase (named n) fs) ds level
        ∙ (unfold same_path begins in ground (arith, is))

    holds_file :
        x.is_folder ≡ false
        → (q : List Name)
        → files_at q (folder m (Spec.erase (named n) fs) ds)
          ≡ left_at [] n x.is_folder q (folder m fs ds)
    holds_file is [] = unfold files_at same_path in refl
    holds_file is (k ∷ q) = unfold files_at same_path begins in ground (arith, is)

descend :
    (c n m : Name) (p : List Name) (fs : List File) (ds : Folders) (d left : Folder)
    → find_folder c ds ≡ some d
    → remove_file_at_path (p ++ (n ∷ [])) d ≡ some left
    → remove_file_at_path (c ∷ (p ++ (n ∷ []))) (folder m fs ds)
      ≡ some (folder m fs (replace_folder c left ds))
descend c n m [] fs ds d left e h = unfold remove_file_at_path in ground (arith, e, h)
descend c n m (a ∷ p) fs ds d left e h = unfold remove_file_at_path in ground (arith, e, h)

files_at-found :
    (n : Name) (p : List Name) (f d : Folder)
    → find_folder n (folders f) ≡ some d
    → files_at (n ∷ p) f ≡ files_at p d
unfolding files_at
files_at-found n p f d e = ground (arith, e)

files_at-same :
    (n : Name) (p : List Name) (f g : Folder)
    → find_folder n (folders f) ≡ find_folder n (folders g)
    → files_at (n ∷ p) f ≡ files_at (n ∷ p) g
unfolding files_at
files_at-same n p f g e = ground (arith, e)

files_at-some :
    (n c : Name) (p : List Name) (f : Folder) (x : File)
    → Spec.find (named n) (files_at (c ∷ p) f) ≡ some x
    → (d : Folder) × (find_folder c (folders f) ≡ some d)
files_at-some n c p f x h = elim (Option-cases (find_folder c (folders f))) [
  | inl missing ↦ absurd (unfold files_at Spec.find in ground (arith, h, missing))
  | inr found ↦ found
]

removed_lem :
    (p : List Name) (n : Name) (f : Folder) (x : File)
    → Good f
    → Spec.find (named n) (files_at p f) ≡ some x
    → Removed p n x.is_folder f
removed_lem [] n (folder m fs ds) x good_f h =
    last-Removed n m fs ds x (Good-Level (folder m fs ds) good_f) (root h)
  where
    root :
        Spec.find (named n) (files_at [] (folder m fs ds)) ≡ some x
        → Spec.find (named n) fs ≡ some x
    root h = unfold files_at in h
removed_lem (c ∷ p) n (folder m fs ds) x good_f h =
    let (d, e) = files_at-some n c p (folder m fs ds) x h in
    let sub =
      removed_lem p n d x (Good-child (folder m fs ds) good_f c d e)
        (ap (Spec.find (named n)) (sym (files_at-found c p (folder m fs ds) d e)) ∙ h) in
    record {
      left = folder m fs (replace_folder c sub.left ds);
      runs = descend c n m p fs ds d sub.left e sub.runs;
      name = refl;
      holds = λ q.
          below c n m p q fs ds d sub.left x.is_folder e (sub.name ∙ find_folder-name c ds d e)
            sub.holds;
    }
  where
    below :
        (c n m : Name) (p q : List Name) (fs : List File) (ds : Folders) (d left : Folder)
        (is_dir : Bool)
        → find_folder c ds ≡ some d
        → folder_name left ≡ c
        → ((q' : List Name) → files_at q' left ≡ left_at p n is_dir q' d)
        → files_at q (folder m fs (replace_folder c left ds))
          ≡ left_at (c ∷ p) n is_dir q (folder m fs ds)
    below c n m p [] fs ds d left is_dir e f holds =
        unfold files_at same_path begins in ground arith
    below c n m p (k ∷ q) fs ds d left is_dir e f holds = elim (Bool-cases (name_eq c k)) [
      | inl hit ↦
          (let same : c ≡ k = (name_eq_iff c k).0 hit in
            let at : find_folder k (replace_folder c left ds) ≡ some left =
              ap (λ j. find_folder j (replace_folder c left ds)) (sym same)
              ∙ find_folder-replace_self c left d ds f e in
            let old : find_folder k ds ≡ some d = ap (λ j. find_folder j ds) (sym same) ∙ e in
            files_at-found k q (folder m fs (replace_folder c left ds)) left at
            ∙ holds q
            ∙ (unfold same_path begins in
                ground (arith, hit, files_at-found k q (folder m fs ds) d old)))
      | inr miss ↦
          files_at-same k q (folder m fs (replace_folder c left ds)) (folder m fs ds)
            (find_folder-replace_ne k c left ds (λ s. ground (arith, name_eq_iff c k)) f)
          ∙ (unfold same_path begins in ground (arith, miss))
    ]

-- filesystem_remove_file_at_path with the path of an entry that a tree holds, in a tree as folder_new
-- builds it: no assert fails; in the folder at the path exactly the first entry of that name is gone,
-- and if it is a folder's, so is everything below it; every other folder keeps its files.
pub filesystem_remove_file_at_path_lem :
    (fuel : ℕ) (fs : FileSystem) (p : List Name) (n : Name) (x : File)
    → Good fs.root
    → ArePlain (p ++ (n ∷ []))
    → Spec.find (named n) (files_at p fs.root) ≡ some x
    → length (joined (p ++ (n ∷ []))) < fuel
    → (r : FileSystem) × (filesystem_remove_file_at_path fuel fs (joined (p ++ (n ∷ []))) ≡ some r)
      × ((q : List Name) → files_at q r.root ≡ left_at p n x.is_folder q fs.root)
filesystem_remove_file_at_path_lem fuel fs p n x good_fs plain found enough =
    let r = removed_lem p n fs.root x good_fs found in
    (
      record fs { root = r.left },
      runs_at (joined (p ++ (n ∷ []))) (p ++ (n ∷ [])) r.left
          (get_path_components-joined fuel (p ++ (n ∷ [])) plain enough) r.runs,
      r.holds,
    )
  where
    runs_at :
        (path : Name) (ns : List Name) (left : Folder)
        → get_path_components fuel path ≡ some ns
        → remove_file_at_path ns fs.root ≡ some left
        → filesystem_remove_file_at_path fuel fs path ≡ some (record fs { root = left })
    runs_at path ns left e f = unfold filesystem_remove_file_at_path in ground (arith, e, f)
