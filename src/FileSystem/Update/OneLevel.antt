-- ===== src/FileSystem/Update/OneLevel.antt =====
-- One level of a tree that is brought up to date: its files and its child folders.
use mathlib.Core.Option.{some-injective}
use seven_deadly_syns.Prelude.{
  ◌≡◌, refl, sym, ap, ap₂, ◌∙◌, true, ◌&&◌, not, if◌then◌else◌, Option, none, some, List, [], ◌∷◌,
  ◌++◌, arith, Bool-cases, Option-cases, inl, inr,
}
use seven_deadly_syns.Queue.Spec
use seven_deadly_syns.FileSystem.Types.{
  Name, File, Folder, Folders, FileSystem, folder, nil, cons, files, folders, folder_name,
  find_folder, file_equals,
}
use seven_deadly_syns.FileSystem.Paths.{files_at, NamesDiffer}
use seven_deadly_syns.FileSystem.Subtract.{subtract, subtract_files, subtract_folders, is_empty}
use seven_deadly_syns.FileSystem.Subtract.Laws.{
  remainder, Left, subtract_folders-Left, subtract_folders-NamesDiffer,
}
use seven_deadly_syns.FileSystem.Diff.{has, NoRepeat, erase-NoRepeat, has-subtract_files}
use seven_deadly_syns.FileSystem.Update.{
  remove, remove_files, remove_folders, add, add_files, add_folders, plus_equals,
}
use seven_deadly_syns.FileSystem.Update.Good.{folder_file, is_some, AreProper, Level}
use seven_deadly_syns.FileSystem.Update.Files.{
  remove_files-files, remove_files-folders, has-append, bare, AddedFiles, add_files_lem,
}
use seven_deadly_syns.FileSystem.Update.Children.{
  removed, remove_folders_lem, AddedFolders, Adds, add_folders_lem,
}

-- The two trees hold the same files at each path.
abbrev pub Agree : Folder → Folder → Type 0
Agree r f = (p : List Name) (x : File) → has x (files_at p r) ≡ has x (files_at p f)

abbrev pub less : List File → List File → List File
less ts fs = subtract_files file_equals ts fs

less-NoRepeat : (ts fs : List File) → NoRepeat fs → NoRepeat (less ts fs)
unfolding subtract_files
less-NoRepeat [] fs u = u
less-NoRepeat (t ∷ ts) fs u =
    less-NoRepeat ts (Spec.erase (file_equals t) fs) (erase-NoRepeat t fs u)

erase-AreProper :
    (t : File) (fs : List File) → AreProper fs → AreProper (Spec.erase (file_equals t) fs)
unfolding Spec.erase
erase-AreProper t [] h = tt
erase-AreProper t (f ∷ fs) h = elim (Bool-cases (file_equals t f)) [
  | inl hit ↦ rw hit h.1
  | inr miss ↦ rw miss (h.0, erase-AreProper t fs h.1)
]

less-AreProper : (ts fs : List File) → AreProper fs → AreProper (less ts fs)
unfolding subtract_files
less-AreProper [] fs h = h
less-AreProper (t ∷ ts) fs h =
    less-AreProper ts (Spec.erase (file_equals t) fs) (erase-AreProper t fs h)

pub remove_empty : (t d : Folder) → is_empty t ≡ true → remove t d ≡ d
unfolding remove remove_files remove_folders is_empty
remove_empty (folder m [] nil) (folder n fs ds) h = refl
remove_empty (folder m [] (cons u us)) d h = cc
remove_empty (folder m (t ∷ ts) us) d h = cc

add_empty : (t d : Folder) → is_empty t ≡ true → add t d ≡ some d
unfolding add add_files add_folders is_empty
add_empty (folder m [] nil) (folder n fs ds) h = refl
add_empty (folder m [] (cons u us)) d h = cc
add_empty (folder m (t ∷ ts) us) d h = cc

files_at-some :
    (n : Name) (p : List Name) (f d : Folder)
    → find_folder n (folders f) ≡ some d
    → files_at (n ∷ p) f ≡ files_at p d
unfolding files_at
files_at-some n p f d e = ground (arith, e)

files_at-none :
    (n : Name) (p : List Name) (f : Folder)
    → find_folder n (folders f) ≡ none
    → files_at (n ∷ p) f ≡ []
unfolding files_at
files_at-none n p f e = ground (arith, e)

pub plus_equals-runs :
    (fs0 fs1 : FileSystem) (r : Folder)
    → add fs1.root fs0.root ≡ some r
    → plus_equals fs0 fs1 ≡ some (record fs0 { root = r })
unfolding plus_equals
plus_equals-runs fs0 fs1 r e = ground (arith, e)

add-runs :
    (m : Name) (ts fs : List File) (us ds ds' : Folders) (f : Folder)
    → add_files us ts (files f) (folders f) ≡ some (fs, ds)
    → add_folders us ds ≡ some ds'
    → add (folder m ts us) f ≡ some (folder (folder_name f) fs ds')
unfolding add
add-runs m ts fs us ds ds' f e g = ground (arith, e, g)

remove-runs :
    (m n : Name) (ts fs : List File) (us ds : Folders)
    → remove (folder m ts us) (folder n fs ds)
      ≡ folder n (less ts fs) (remove_folders us (remove_files ts fs ds).1)
unfolding remove
remove-runs m n ts fs us ds =
    ap (λ xs. folder n xs (remove_folders us (remove_files ts fs ds).1))
      (remove_files-files ts fs ds)

-- One level of two trees, with what is known of the folders that both have, and of those that only
-- the new one has.
module _ (fo fn : List File) (do_ dn : Folders) (lo : Level fo do_) (ln : Level fn dn)
    (both : (n : Name) (d e : Folder)
      → find_folder n do_ ≡ some d
      → find_folder n dn ≡ some e
      → (r : Folder) × (add (subtract file_equals d e) (remove (subtract file_equals e d) d)
          ≡ some r)
        × Agree r e)
    (fresh : (n : Name) (e : Folder)
      → find_folder n do_ ≡ none
      → find_folder n dn ≡ some e
      → (r : Folder) × (add e (bare n) ≡ some r) × Agree r e) where
  abbrev deleted : List File
  deleted = less fn fo

  abbrev added : List File
  added = less fo fn

  abbrev deleted_folders : Folders
  deleted_folders = subtract_folders file_equals dn do_

  abbrev added_folders : Folders
  added_folders = subtract_folders file_equals do_ dn

  abbrev rest : Folders
  rest = remove_folders deleted_folders (remove_files deleted fo do_).1

  has-deleted : (x : File) → has x deleted ≡ (has x fo && not (has x fn))
  has-deleted x = has-subtract_files x fn fo lo.no_repeat

  has-added : (x : File) → has x added ≡ (has x fn && not (has x fo))
  has-added x = has-subtract_files x fo fn ln.no_repeat

  has-kept : (x : File) → has x (less deleted fo) ≡ (has x fo && has x fn)
  has-kept x = ground (arith, has-subtract_files x deleted fo lo.no_repeat, has-deleted x)

  middle :
      (n : Name)
      → (find_folder n (remove_files deleted fo do_).1
          ≡ (if has (folder_file n) deleted then none else find_folder n do_))
        × NamesDiffer (remove_files deleted fo do_).1
  middle n =
      remove_files-folders deleted fo do_ n (less-NoRepeat fn fo lo.no_repeat) lo.no_repeat
        (less-AreProper fn fo lo.proper) (λ x i. ground (arith, i, has-deleted x)) lo.differ

  rest_at :
      (n : Name)
      → (find_folder n rest
          ≡ removed (find_folder n deleted_folders) (find_folder n (remove_files deleted fo do_).1))
        × NamesDiffer rest
  rest_at n =
      remove_folders_lem deleted_folders (remove_files deleted fo do_).1 n
        (subtract_folders-NamesDiffer file_equals dn do_ lo.differ) (middle n).1

  removed-none : (t : Option Folder) → removed t none ≡ none
  removed-none none = refl
  removed-none (some t) = refl

  rest-gone : (n : Name) → find_folder n do_ ≡ none → find_folder n rest ≡ none
  rest-gone n e =
      (rest_at n).0
      ∙ ap (removed (find_folder n deleted_folders)) ((middle n).0 ∙ ground (arith, e))
      ∙ removed-none (find_folder n deleted_folders)

  rest-deleted : (n : Name) → find_folder n dn ≡ none → find_folder n rest ≡ none
  rest-deleted n e =
      (rest_at n).0
      ∙ ap (removed (find_folder n deleted_folders)) (
          (middle n).0 ∙ ground (arith, e, has-deleted (folder_file n), lo.entries n, ln.entries n))
      ∙ removed-none (find_folder n deleted_folders)

  removed-remainder :
      (t d : Folder)
      → removed (remainder file_equals t d) (some d) ≡ some (remove (subtract file_equals t d) d)
  removed-remainder t d = elim (Bool-cases (is_empty (subtract file_equals t d))) [
    | inl empty ↦ rw empty (ap some (sym (remove_empty (subtract file_equals t d) d empty)))
    | inr left ↦ rw left refl
  ]

  rest-both :
      (n : Name) (d e : Folder)
      → find_folder n do_ ≡ some d
      → find_folder n dn ≡ some e
      → find_folder n rest ≡ some (remove (subtract file_equals e d) d)
  rest-both n d e ho hn =
      (rest_at n).0
      ∙ ap₂ removed
          ((subtract_folders-Left file_equals dn do_ n ln.differ lo.differ).reduced e d hn ho)
          ((middle n).0
            ∙ ground (arith, ho, hn, has-deleted (folder_file n), lo.entries n, ln.entries n))
      ∙ removed-remainder e d

  left : (n : Name) → Left file_equals do_ dn added_folders n
  left n = subtract_folders-Left file_equals do_ dn n lo.differ ln.differ

  old_lacks : (n : Name) → has (folder_file n) added ≡ true → find_folder n do_ ≡ none
  old_lacks n i = elim (Option-cases (find_folder n do_)) [
    | inl missing ↦ missing
    | inr (d, e) ↦ absurd (ground (arith, i, has-added (folder_file n), lo.entries n, e))
  ]

  new_has : (n : Name) → has (folder_file n) added ≡ true → is_some (find_folder n dn) ≡ true
  new_has n i = ground (arith, i, has-added (folder_file n), ln.entries n)

  after_files : AddedFiles added_folders added (less deleted fo) rest
  after_files =
      add_files_lem added_folders added (less deleted fo) rest (less-NoRepeat fo fn ln.no_repeat)
        (less-AreProper fo fn ln.proper) (λ x i. ground (arith, i, has-added x, has-kept x))
        (λ n i. ap is_some ((left n).kept (old_lacks n i)) ∙ new_has n i)
        (λ n i. rest-gone n (old_lacks n i)) (rest_at []).1

  after_files-new :
      (n : Name) (e : Folder)
      → find_folder n do_ ≡ none
      → find_folder n dn ≡ some e
      → find_folder n after_files.left ≡ some (bare n)
  after_files-new n e ho hn =
      after_files.finds n
      ∙ ground (arith, has-added (folder_file n), lo.entries n, ln.entries n, ho, hn)

  after_files-old :
      (n : Name) (d : Folder)
      → find_folder n do_ ≡ some d
      → find_folder n after_files.left ≡ find_folder n rest
  after_files-old n d ho =
      after_files.finds n ∙ ground (arith, has-added (folder_file n), lo.entries n, ho)

  after_files-gone : (n : Name) → find_folder n dn ≡ none → find_folder n after_files.left ≡ none
  after_files-gone n hn =
      after_files.finds n
      ∙ ground (arith, has-added (folder_file n), ln.entries n, hn, rest-deleted n hn)

  remainder-some :
      (t d r : Folder) → remainder file_equals t d ≡ some r → subtract file_equals t d ≡ r
  remainder-some t d r h = ground (arith, h)

  added_gone : (n : Name) → find_folder n dn ≡ none → find_folder n added_folders ≡ none
  added_gone n hn = elim (Option-cases (find_folder n do_)) [
    | inl ho ↦ (left n).kept ho ∙ hn
    | inr (d, ho) ↦ (left n).absent d ho hn
  ]

  adds : (n : Name) (t : Folder) → find_folder n added_folders ≡ some t → Adds after_files.left n t
  adds n t h = elim (Option-cases (find_folder n dn)) [
    | inl hn ↦ absurd (let gone = added_gone n hn in ground (arith, gone, h))
    | inr (e, hn) ↦ elim (Option-cases (find_folder n do_)) [
      | inl ho ↦
          let same : e ≡ t = some-injective e t (sym hn ∙ sym ((left n).kept ho) ∙ h) in
          let (r, runs, agree) = fresh n e ho hn in
          (bare n, r, after_files-new n e ho hn, ap (λ k. add k (bare n)) (sym same) ∙ runs)
      | inr (d, ho) ↦
          let same : subtract file_equals d e ≡ t =
            remainder-some d e t (sym ((left n).reduced d e ho hn) ∙ h) in
          let (r, runs, agree) = both n d e ho hn in
          (
            remove (subtract file_equals e d) d,
            r,
            after_files-old n d ho ∙ rest-both n d e ho hn,
            ap (λ k. add k (remove (subtract file_equals e d) d)) (sym same) ∙ runs,
          )
    ]
  ]

  after_folders : AddedFolders added_folders after_files.left
  after_folders =
      add_folders_lem added_folders after_files.left
        (subtract_folders-NamesDiffer file_equals do_ dn ln.differ) after_files.differ adds

  -- The folder of a name of the new tree, at the end.
  child_at :
      (n : Name) (e : Folder)
      → find_folder n dn ≡ some e
      → (r : Folder) × (find_folder n after_folders.left ≡ some r) × Agree r e
  child_at n e hn = elim (Option-cases (find_folder n do_)) [
    | inl ho ↦
        let (r, runs, agree) = fresh n e ho hn in
        (
          r,
          after_folders.changed n e (bare n) r ((left n).kept ho ∙ hn) (after_files-new n e ho hn)
              runs,
          agree,
        )
    | inr (d, ho) ↦
        let (r, runs, agree) = both n d e ho hn in
        let before = after_files-old n d ho ∙ rest-both n d e ho hn in
        elim (Bool-cases (is_empty (subtract file_equals d e))) [
          | inl empty ↦
              let same = some-injective _ r (
                sym
                  (add_empty (subtract file_equals d e) (remove (subtract file_equals e d) d) empty)
                ∙ runs) in
              (
                r,
                after_folders.kept n ((left n).reduced d e ho hn ∙ rw empty refl)
                    ∙ before
                    ∙ ap some same,
                agree,
              )
          | inr some_left ↦ (
            r,
            after_folders.changed n (subtract file_equals d e) (remove (subtract file_equals e d) d)
                r ((left n).reduced d e ho hn ∙ rw some_left refl) before runs,
            agree,
          )
        ]
  ]

  child_gone : (n : Name) → find_folder n dn ≡ none → find_folder n after_folders.left ≡ none
  child_gone n hn = after_folders.kept n (added_gone n hn) ∙ after_files-gone n hn

  final_files : (x : File) → has x (less deleted fo ++ added) ≡ has x fn
  final_files x = has-append x (less deleted fo) added ∙ ground (arith, has-kept x, has-added x)

  level-Agree :
      (m k : Name) → Agree (folder m (less deleted fo ++ added) after_folders.left) (folder k fn dn)
  level-Agree m k [] x = unfold files_at in final_files x
  level-Agree m k (n ∷ p) x =
      let r : Folder = folder m (less deleted fo ++ added) after_folders.left in
      elim (Option-cases (find_folder n dn)) [
        | inl hn ↦
            ap (has x)
              (files_at-none n p r (child_gone n hn) ∙ sym (files_at-none n p (folder k fn dn) hn))
        | inr (e, hn) ↦
            let (d, at, agree) = child_at n e hn in
            ap (has x) (files_at-some n p r d at)
            ∙ agree p x
            ∙ ap (has x) (sym (files_at-some n p (folder k fn dn) e hn))
      ]

  level-add :
      (m k : Name)
      → add
          (subtract file_equals (folder m fo do_) (folder k fn dn))
          (remove (subtract file_equals (folder k fn dn) (folder m fo do_)) (folder m fo do_))
        ≡ some (folder m (less deleted fo ++ added) after_folders.left)
  unfolding subtract
  level-add m k =
      ap (add (subtract file_equals (folder m fo do_) (folder k fn dn)))
        (remove-runs m m deleted fo deleted_folders do_)
      ∙ add-runs k added (less deleted fo ++ added) added_folders after_files.left
          after_folders.left (folder m (less deleted fo) rest) after_files.runs after_folders.runs

  pub level-Sync :
      (m k : Name)
      → (r : Folder) × (add
            (subtract file_equals (folder m fo do_) (folder k fn dn))
            (remove (subtract file_equals (folder k fn dn) (folder m fo do_)) (folder m fo do_))
          ≡ some r)
        × Agree r (folder k fn dn)
  level-Sync m k =
      (folder m (less deleted fo ++ added) after_folders.left, level-add m k, level-Agree m k)
