-- ===== src/FileSystem/Diff.antt =====
-- filesystem_diff and filesystem_equals, by what the trees hold at each path.
use seven_deadly_syns.Prelude.{
  ◌≡◌, refl, ap, ◌∙◌, Bool, true, false, ◌&&◌, ◌||◌, not, if◌then◌else◌, List, [], ◌∷◌, arith,
  Bool-cases, inl, inr,
}
use seven_deadly_syns.Queue.Spec
use seven_deadly_syns.FileSystem.Types.{
  Name, File, Folder, Folders, folder, nil, cons, FileSystem, folder_name, find_folder,
  erase_folder, name_eq_iff, file_equals, file_equals_iff,
}
use seven_deadly_syns.FileSystem.Paths.{files_at, IsDistinct}
use seven_deadly_syns.FileSystem.Subtract.{
  subtract, subtract_folders, subtract_files, is_empty, folder_copy-eq, diff, filesystem_equals,
}
use seven_deadly_syns.FileSystem.Subtract.Laws.{files_at-subtract, files_at-empty}

-- Whether a list holds a file, by all four fields.
unfoldable pub has : File → List File → Bool
has x [] = false
has x (f ∷ fs) = file_equals x f || has x fs

-- No file stands twice in a list.
abbrev pub NoRepeat : List File → Type 0
NoRepeat [] = Unit {0}
NoRepeat (f ∷ fs) = (has f fs ≡ false) × NoRepeat fs

pub has-erase :
    (x t : File) (fs : List File)
    → NoRepeat fs
    → has x (Spec.erase (file_equals t) fs) ≡ (if file_equals x t then false else has x fs)
unfolding has Spec.erase
has-erase x t [] u = ground arith
has-erase x t (f ∷ fs) u =
    ground (arith, file_equals_iff t f, file_equals_iff x t, file_equals_iff x f, has-erase x t fs)

erase-has :
    (x t : File) (fs : List File) → has x fs ≡ false → has x (Spec.erase (file_equals t) fs) ≡ false
unfolding has Spec.erase
erase-has x t [] h = refl
erase-has x t (f ∷ fs) h = ground (arith, erase-has x t fs)

pub erase-NoRepeat :
    (t : File) (fs : List File) → NoRepeat fs → NoRepeat (Spec.erase (file_equals t) fs)
unfolding Spec.erase
erase-NoRepeat t [] u = tt
erase-NoRepeat t (f ∷ fs) u = elim (Bool-cases (file_equals t f)) [
  | inl hit ↦ rw hit u.1
  | inr miss ↦ rw miss (erase-has f t fs u.0, erase-NoRepeat t fs u.1)
]

-- The files of the first list that the second does not hold.
pub has-subtract_files :
    (x : File) (ts fs : List File)
    → NoRepeat fs
    → has x (subtract_files file_equals ts fs) ≡ (has x fs && not (has x ts))
unfolding subtract_files has
has-subtract_files x [] fs u = ground arith
has-subtract_files x (t ∷ ts) fs u = ground (
  arith,
  has-subtract_files x ts (Spec.erase (file_equals t) fs) (erase-NoRepeat t fs u),
  has-erase x t fs u,
)

diff_files :
    (p : List Name) (t f : Folder) (x : File)
    → IsDistinct t
    → IsDistinct f
    → NoRepeat (files_at p f)
    → has x (files_at p (subtract file_equals t f))
      ≡ (has x (files_at p f) && not (has x (files_at p t)))
diff_files p t f x dt df u =
    ap (has x) (files_at-subtract file_equals p t f dt df)
    ∙ has-subtract_files x (files_at p t) (files_at p f) u

-- filesystem_diff at each path: the additions hold there exactly the files of the new tree that
-- the old one does not hold, the deletions those of the old tree that the new one does not hold.
-- Folders of one parent have different names, and neither folder at the path holds a file twice.
pub diff_lem :
    (old new : FileSystem) (p : List Name) (x : File)
    → IsDistinct old.root
    → IsDistinct new.root
    → NoRepeat (files_at p old.root)
    → NoRepeat (files_at p new.root)
    → let (additions, deletions) = diff old new in
      (has x (files_at p additions.root)
        ≡ (has x (files_at p new.root) && not (has x (files_at p old.root))))
      × (has x (files_at p deletions.root)
          ≡ (has x (files_at p old.root) && not (has x (files_at p new.root))))
unfolding diff
diff_lem old new p x d_old d_new u_old u_new =
    rw (folder_copy-eq old.root, folder_copy-eq new.root)
      (
        diff_files p old.root new.root x d_old d_new u_new,
        diff_files p new.root old.root x d_new d_old u_old,
      )

subtract_files_self :
    (equals : File → File → Bool)
    → ((f : File) → equals f f ≡ true)
    → (fs : List File) → subtract_files equals fs fs ≡ []
unfolding subtract_files Spec.erase
subtract_files_self equals r [] = refl
subtract_files_self equals r (f ∷ fs) = rw (r f) (subtract_files_self equals r fs)

mutual
  unfolding subtract is_empty find_folder erase_folder

  subtract_self :
      (equals : File → File → Bool)
      → ((f : File) → equals f f ≡ true)
      → (f : Folder) → is_empty (subtract equals f f) ≡ true
  subtract_self equals r (folder n fs ds) =
      rw (subtract_files_self equals r fs, subtract_folders_self equals r ds)

  subtract_folders_self :
      (equals : File → File → Bool)
      → ((f : File) → equals f f ≡ true)
      → (ds : Folders) → subtract_folders equals ds ds ≡ nil
  subtract_folders_self equals r nil = refl
  subtract_folders_self equals r (cons d ds) =
      rw ((name_eq_iff (folder_name d) (folder_name d)).1 refl) (
        rw (subtract_self equals r d) (
          rw ((name_eq_iff (folder_name d) (folder_name d)).1 refl)
            (subtract_folders_self equals r ds)))

-- filesystem_equals holds of a tree and itself.
pub filesystem_equals_refl : (fs : FileSystem) → filesystem_equals fs fs ≡ true
unfolding filesystem_equals
filesystem_equals_refl fs =
    rw (
      folder_copy-eq fs.root,
      subtract_self file_equals (λ f. (file_equals_iff f f).1 refl) fs.root,
    )

has-nil : (x : File) → has x [] ≡ false
unfolding has
has-nil x = refl

both_empty :
    (fs0 fs1 : FileSystem)
    → filesystem_equals fs0 fs1 ≡ true
    → let (additions, deletions) = diff fs0 fs1 in
      (is_empty additions.root ≡ true) × (is_empty deletions.root ≡ true)
unfolding filesystem_equals
both_empty fs0 fs1 h = ground arith

-- Trees that filesystem_equals accepts hold the same files at each path.
filesystem_equals_sound :
    (fs0 fs1 : FileSystem) (p : List Name) (x : File)
    → IsDistinct fs0.root
    → IsDistinct fs1.root
    → NoRepeat (files_at p fs0.root)
    → NoRepeat (files_at p fs1.root)
    → filesystem_equals fs0 fs1 ≡ true
    → has x (files_at p fs0.root) ≡ has x (files_at p fs1.root)
filesystem_equals_sound fs0 fs1 p x d0 d1 u0 u1 h =
    let (added, deleted) = diff fs0 fs1 in
    let (only_new, only_old) = diff_lem fs0 fs1 p x d0 d1 u0 u1 in
    let (none_added, none_deleted) = both_empty fs0 fs1 h in
    let a = ap (has x) (files_at-empty file_equals p added.root none_added) in
    let b = ap (has x) (files_at-empty file_equals p deleted.root none_deleted) in
    ground (arith, only_new, only_old, a, b, has-nil x)
