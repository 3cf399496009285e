-- ===== src/FileSystem/Subtract/Laws.antt =====
-- folder_subtract at every path: the files there, less those of the other tree there.
use mathlib.Core.Path.{subst}
use seven_deadly_syns.Prelude.{
  ◌≡◌, ◌≢◌, refl, sym, ap, ◌∙◌, Bool, true, false, if◌then◌else◌, Option, none, some, List, [], ◌∷◌,
  arith, Bool-cases, Option-cases, inl, inr,
}
use seven_deadly_syns.Queue.Spec
use seven_deadly_syns.FileSystem.Types.{
  Name, File, Folder, Folders, folder, nil, cons, folders, folder_name, find_folder, erase_folder,
  replace_folder, name_eq, name_eq_iff,
}
use seven_deadly_syns.FileSystem.Paths.{
  files_at, NamesDiffer, IsDistinct, distinct, find_folder-name, find_folder-erase_self,
  find_folder-erase_ne, find_folder-replace_self, find_folder-replace_ne, erase-NamesDiffer,
  replace-NamesDiffer, find_folder-IsDistinct,
}
use seven_deadly_syns.FileSystem.Subtract.{subtract, subtract_folders, subtract_files, is_empty}

module _ (equals : File → File → Bool) where
  -- What becomes of a folder that both trees have.
  abbrev pub remainder : Folder → Folder → Option Folder
  remainder t d = let rest = subtract equals t d in if is_empty rest then none else some rest

  -- One round of the second loop of folder_subtract.
  abbrev round : Folder → Folders → Folders
  round t ds = elim (find_folder (folder_name t) ds) [
    | none ↦ ds
    | some found ↦
        (let rest = subtract equals t found in
          if is_empty rest
          then erase_folder (folder_name t) ds
          else replace_folder (folder_name t) rest ds)
  ]

  subtract-name : (t d : Folder) → folder_name (subtract equals t d) ≡ folder_name d
  unfolding subtract
  subtract-name (folder m ts us) d = refl

  -- The effect of a round, by what it finds.
  record Round (t : Folder) (ds es : Folders) : Type 0 where
    differ : NamesDiffer es
    other : (n : Name) → n ≢ folder_name t → find_folder n es ≡ find_folder n ds
    missing : find_folder (folder_name t) ds ≡ none → find_folder (folder_name t) es ≡ none
    present :
        (d : Folder)
        → find_folder (folder_name t) ds ≡ some d
        → find_folder (folder_name t) es ≡ remainder t d

  round-none : (t : Folder) (ds : Folders) → find_folder (folder_name t) ds ≡ none → round t ds ≡ ds
  round-none t ds e = rw (e, round)

  round-some_empty :
      (t d : Folder) (ds : Folders)
      → find_folder (folder_name t) ds ≡ some d
      → is_empty (subtract equals t d) ≡ true
      → round t ds ≡ erase_folder (folder_name t) ds
  round-some_empty t d ds e h = rw (e, round) (rw h)

  round-some_left :
      (t d : Folder) (ds : Folders)
      → find_folder (folder_name t) ds ≡ some d
      → is_empty (subtract equals t d) ≡ false
      → round t ds ≡ replace_folder (folder_name t) (subtract equals t d) ds
  round-some_left t d ds e h = rw (e, round) (rw h)

  round_lem : (t : Folder) (ds : Folders) → NamesDiffer ds → Round t ds (round t ds)
  round_lem t ds u = elim (Option-cases (find_folder (folder_name t) ds)) [
    | inl e ↦
        subst (Round t ds) (sym (round-none t ds e))
          (record { differ = u; other = λ n ne. refl; missing = λ h. e; present = λ d h. cc })
    | inr (d, e) ↦ elim (Bool-cases (is_empty (subtract equals t d))) [
      | inl h ↦ subst (Round t ds) (sym (round-some_empty t d ds e h)) (record {
        differ = erase-NamesDiffer (folder_name t) ds u;
        other = λ n ne. find_folder-erase_ne n (folder_name t) ds ne;
        missing = λ no. cc;
        present = λ d' e'.
            find_folder-erase_self (folder_name t) ds u
            ∙ subst (λ x. none ≡ remainder t x) (same d d' e e') (rw h);
      })
      | inr h ↦ subst (Round t ds) (sym (round-some_left t d ds e h)) (record {
        differ = replace-NamesDiffer (folder_name t) (subtract equals t d) ds (named d e) u;
        other = λ n ne.
            find_folder-replace_ne n (folder_name t) (subtract equals t d) ds ne (named d e);
        missing = λ no. cc;
        present = λ d' e'.
            find_folder-replace_self (folder_name t) (subtract equals t d) d ds (named d e) e
            ∙ subst (λ x. some (subtract equals t d) ≡ remainder t x) (same d d' e e') (rw h);
      })
    ]
  ]
    where
      same :
          (d d' : Folder)
          → find_folder (folder_name t) ds ≡ some d
          → find_folder (folder_name t) ds ≡ some d'
          → d ≡ d'
      same d d' e e' = ground arith

      named :
          (d : Folder)
          → find_folder (folder_name t) ds ≡ some d
          → folder_name (subtract equals t d) ≡ folder_name t
      named d e = subtract-name t d ∙ find_folder-name (folder_name t) ds d e

  -- What `es` holds under a name, if it is what `us` leaves of `ds`.
  pub record Left (us ds es : Folders) (n : Name) : Type 0 where
    pub kept : find_folder n us ≡ none → find_folder n es ≡ find_folder n ds
    pub absent :
        (t : Folder) → find_folder n us ≡ some t → find_folder n ds ≡ none → find_folder n es ≡ none
    pub reduced :
        (t d : Folder)
        → find_folder n us ≡ some t
        → find_folder n ds ≡ some d
        → find_folder n es ≡ remainder t d

  Left-cons :
      (t : Folder) (ts ds es : Folders) (n : Name)
      → find_folder (folder_name t) ts ≡ none
      → Round t ds (round t ds)
      → Left ts (round t ds) es n
      → Left (cons t ts) ds es n
  unfolding find_folder
  Left-cons t ts ds es n differs r l = elim (Bool-cases (name_eq n (folder_name t))) [
    | inl hit ↦
        let e : n ≡ folder_name t = (name_eq_iff n (folder_name t)).0 hit in
        let after : find_folder n es ≡ find_folder (folder_name t) (round t ds) =
          l.kept (ap (λ m. find_folder m ts) e ∙ differs)
          ∙ ap (λ m. find_folder m (round t ds)) e in
        record {
          kept = λ h. ground arith;
          absent = λ t' h no. after ∙ r.missing (ap (λ m. find_folder m ds) (sym e) ∙ no);
          reduced = λ t' d h yes_d.
              after
              ∙ r.present d (ap (λ m. find_folder m ds) (sym e) ∙ yes_d)
              ∙ ap (λ x. remainder x d) (let s : t ≡ t' = ground arith in s);
        }
    | inr miss ↦
        let ne : n ≢ folder_name t = ground (arith, name_eq_iff n (folder_name t)) in
        record {
          kept = λ h. l.kept (ground arith) ∙ r.other n ne;
          absent = λ t' h no. l.absent t' (ground arith) (r.other n ne ∙ no);
          reduced = λ t' d h some_d. l.reduced t' d (ground arith) (r.other n ne ∙ some_d);
        }
  ]

  pub subtract_folders-Left :
      (us ds : Folders) (n : Name)
      → NamesDiffer us
      → NamesDiffer ds
      → Left us ds (subtract_folders equals us ds) n
  unfolding subtract_folders find_folder
  subtract_folders-Left nil ds n uu ud = record {
    kept = λ h. refl;
    absent = λ t h no. no;
    reduced = λ t d h. cc;
  }
  subtract_folders-Left (cons t ts) ds n uu ud =
      let r = round_lem t ds ud in
      Left-cons t ts ds (subtract_folders equals ts (round t ds)) n uu.0 r
        (subtract_folders-Left ts (round t ds) n uu.1 r.differ)

  pub subtract_folders-NamesDiffer :
      (us ds : Folders) → NamesDiffer ds → NamesDiffer (subtract_folders equals us ds)
  unfolding subtract_folders
  subtract_folders-NamesDiffer nil ds u = u
  subtract_folders-NamesDiffer (cons t ts) ds u =
      subtract_folders-NamesDiffer ts (round t ds) (round_lem t ds u).differ

  pub subtract_files-nil : (ts : List File) → subtract_files equals ts [] ≡ []
  unfolding subtract_files Spec.erase
  subtract_files-nil [] = refl
  subtract_files-nil (t ∷ ts) = subtract_files-nil ts

  pub files_at-empty : (p : List Name) (f : Folder) → is_empty f ≡ true → files_at p f ≡ []
  unfolding is_empty files_at find_folder
  files_at-empty [] (folder n [] nil) h = refl
  files_at-empty (m ∷ p) (folder n [] nil) h = refl
  files_at-empty p (folder n [] (cons d ds)) h = cc
  files_at-empty p (folder n (f ∷ fs) ds) h = cc

  abbrev files_of : List Name → Option Folder → List File
  files_of p none = []
  files_of p (some d) = files_at p d

  files_at-cons :
      (n : Name) (p : List Name) (f : Folder)
      → files_at (n ∷ p) f ≡ files_of p (find_folder n (folders f))
  unfolding files_at
  files_at-cons n p f = ground arith

  files_of-remainder :
      (p : List Name) (t d : Folder) → files_of p (remainder t d) ≡ files_at p (subtract equals t d)
  files_of-remainder p t d = elim (Bool-cases (is_empty (subtract equals t d))) [
    | inl h ↦ rw h (sym (files_at-empty p (subtract equals t d) h))
    | inr h ↦ rw h
  ]

  folders-subtract :
      (t f : Folder)
      → folders (subtract equals t f) ≡ subtract_folders equals (folders t) (folders f)
  unfolding subtract
  folders-subtract (folder m ts us) f = refl

  -- folder_subtract, seen at each path: of the files that the folder has there, each file that
  -- the other folder has there takes out the first that it equals, and nothing else changes. The
  -- folders of one parent have different names, in both trees.
  pub files_at-subtract :
      (p : List Name) (t f : Folder)
      → IsDistinct t
      → IsDistinct f
      → files_at p (subtract equals t f) ≡ subtract_files equals (files_at p t) (files_at p f)
  files_at-subtract [] (folder m ts us) (folder k fs ds) dt df = unfold files_at subtract in refl
  files_at-subtract (n ∷ p) (folder m ts us) (folder k fs ds) (distinct nu au) (distinct nd ad) =
      let t : Folder = folder m ts us in
      let f : Folder = folder k fs ds in
      let es : Folders = folders (subtract equals t f) in
      let l : Left us ds es n = rw (folders-subtract t f) (subtract_folders-Left us ds n nu nd) in
      files_at-cons n p (subtract equals t f) ∙ elim (Option-cases (find_folder n us)) [
        | inl none_t ↦
            rw (l.kept none_t, files_at-cons n p t, none_t, files_at-cons n p f)
              (unfold subtract_files in refl)
        | inr (t', et) ↦ elim (Option-cases (find_folder n ds)) [
          | inl none_d ↦
              rw (l.absent t' et none_d, files_at-cons n p f, none_d)
                (sym (subtract_files-nil (files_at (n ∷ p) t)))
          | inr (d, ed) ↦
              rw (l.reduced t' d et ed, files_at-cons n p t, files_at-cons n p f, et, ed)
                (files_of-remainder p t' d
                  ∙ files_at-subtract p t' d (find_folder-IsDistinct n us t' au et)
                      (find_folder-IsDistinct n ds d ad ed))
        ]
      ]
