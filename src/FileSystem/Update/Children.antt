-- ===== src/FileSystem/Update/Children.antt =====
-- The loops over the folders of folder_remove and folder_add.
use seven_deadly_syns.Prelude.{
  ◌≡◌, ◌≢◌, refl, sym, ap, ap₂, ◌∙◌, if◌then◌else◌, Option, none, some, arith, Bool-cases,
  Option-cases, inl, inr,
}
use mathlib.Core.Option.{some-injective}
use seven_deadly_syns.FileSystem.Types.{
  Name, Folder, Folders, folder, nil, cons, folder_name, find_folder, replace_folder, name_eq,
  name_eq_iff,
}
use seven_deadly_syns.FileSystem.Paths.{
  NamesDiffer, find_folder-name, find_folder-replace_self, find_folder-replace_ne,
  replace-NamesDiffer,
}
use seven_deadly_syns.FileSystem.Update.{remove, remove_folders, add, add_folders}

pub remove-name : (t d : Folder) → folder_name (remove t d) ≡ folder_name d
unfolding remove
remove-name (folder m ts us) d = refl

-- What is left of the folder `d` of a name, if the folder `t` is to be taken out of it.
abbrev pub removed : Option Folder → Option Folder → Option Folder
removed none d = d
removed (some t) none = none
removed (some t) (some d) = some (remove t d)

abbrev remove_round : Folder → Folders → Folders
remove_round t ds = elim (find_folder (folder_name t) ds) [
  | none ↦ ds
  | some found ↦ replace_folder (folder_name t) (remove t found) ds
]

remove_round_lem :
    (t : Folder) (ds : Folders) (n : Name)
    → NamesDiffer ds
    → (find_folder n (remove_round t ds) ≡ (
        if name_eq n (folder_name t)
        then removed (some t) (find_folder n ds)
        else find_folder n ds))
      × NamesDiffer (remove_round t ds)
remove_round_lem t ds n u = elim (Option-cases (find_folder (folder_name t) ds)) [
  | inl missing ↦
      rw (missing, remove_round)
        (elim (Bool-cases (name_eq n (folder_name t))) [
          | inl hit ↦
              let gone : find_folder n ds ≡ none =
                ap (λ m. find_folder m ds) ((name_eq_iff n (folder_name t)).0 hit) ∙ missing in
              rw hit (rw gone refl, u)
          | inr miss ↦ rw miss (refl, u)
        ])
  | inr (d, e) ↦
      let named = remove-name t d ∙ find_folder-name (folder_name t) ds d e in
      rw (e, remove_round)
        (elim (Bool-cases (name_eq n (folder_name t))) [
          | inl hit ↦
              let same : n ≡ folder_name t = (name_eq_iff n (folder_name t)).0 hit in
              let there : find_folder n ds ≡ some d = ap (λ m. find_folder m ds) same ∙ e in
              rw hit (
                ap (λ m. find_folder m (replace_folder (folder_name t) (remove t d) ds)) same
                    ∙ find_folder-replace_self (folder_name t) (remove t d) d ds named e
                    ∙ sym (ap (removed (some t)) there),
                replace-NamesDiffer (folder_name t) (remove t d) ds named u,
              )
          | inr miss ↦ rw miss (
            find_folder-replace_ne n (folder_name t) (remove t d) ds
                (λ s. ground (arith, name_eq_iff n (folder_name t))) named,
            replace-NamesDiffer (folder_name t) (remove t d) ds named u,
          )
        ])
]

-- The second loop of folder_remove, name by name.
pub remove_folders_lem :
    (us ds : Folders) (n : Name)
    → NamesDiffer us
    → NamesDiffer ds
    → (find_folder n (remove_folders us ds) ≡ removed (find_folder n us) (find_folder n ds))
      × NamesDiffer (remove_folders us ds)
unfolding remove_folders find_folder
remove_folders_lem nil ds n uu u = (refl, u)
remove_folders_lem (cons t ts) ds n uu u =
    let (first, u') = remove_round_lem t ds n u in
    let (rest, u'') = remove_folders_lem ts (remove_round t ds) n uu.1 u' in
    (
      rest ∙ elim (Bool-cases (name_eq n (folder_name t))) [
        | inl hit ↦
            let same : n ≡ folder_name t = (name_eq_iff n (folder_name t)).0 hit in
            let alone : find_folder n ts ≡ none = ap (λ m. find_folder m ts) same ∙ uu.0 in
            ap₂ removed alone first ∙ rw hit refl
        | inr miss ↦ ap (removed (find_folder n ts)) first ∙ rw miss refl
      ],
      u'',
    )

pub add-name : (t d r : Folder) → add t d ≡ some r → folder_name r ≡ folder_name d
unfolding add
add-name (folder m ts us) d r e = ground (arith, e)

-- What the second loop of folder_add leaves.
pub record AddedFolders (us ds : Folders) : Type 0 where
  pub left : Folders
  pub runs : add_folders us ds ≡ some left
  pub differ : NamesDiffer left
  pub kept : (n : Name) → find_folder n us ≡ none → find_folder n left ≡ find_folder n ds
  pub changed :
      (n : Name) (t d r : Folder)
      → find_folder n us ≡ some t
      → find_folder n ds ≡ some d
      → add t d ≡ some r
      → find_folder n left ≡ some r

-- A folder of a name that can be added.
abbrev pub Adds : Folders → Name → Folder → Type 0
Adds ds n t = (d : Folder) × (r : Folder) × (find_folder n ds ≡ some d) × (add t d ≡ some r)

add_folders-cons :
    (t d r : Folder) (ts ds : Folders)
    → find_folder (folder_name t) ds ≡ some d
    → add t d ≡ some r
    → add_folders (cons t ts) ds ≡ add_folders ts (replace_folder (folder_name t) r ds)
unfolding add_folders
add_folders-cons t d r ts ds e f = ground (arith, e, f)

pub add_folders_lem :
    (us ds : Folders)
    → NamesDiffer us
    → NamesDiffer ds
    → ((n : Name) (t : Folder) → find_folder n us ≡ some t → Adds ds n t)
    → AddedFolders us ds
unfolding find_folder
add_folders_lem nil ds uu u adds = record {
  left = ds;
  runs = unfold add_folders in refl;
  differ = u;
  kept = λ n h. refl;
  changed = λ n t d r h. cc;
}
add_folders_lem (cons t ts) ds uu u adds =
    let m = folder_name t in
    let (d, r, found, adds_t) = adds m t (ground (arith, name_eq_iff m m)) in
    let named = add-name t d r adds_t ∙ find_folder-name m ds d found in
    let others : (n : Name) (t' : Folder) → find_folder n ts ≡ some t' → n ≢ m =
      λ n t' h e. (let h' = ap (λ k. find_folder k ts) (sym e) ∙ h in cc (uu.0)) in
    let rest =
      add_folders_lem ts (replace_folder m r ds) uu.1 (replace-NamesDiffer m r ds named u)
        (λ n t' h.
          let (d', r', found', adds') =
            adds n t' (ground (arith, others n t' h, name_eq_iff n m)) in
          (d', r', find_folder-replace_ne n m r ds (others n t' h) named ∙ found', adds')) in
    record {
      left = rest.left;
      runs = add_folders-cons t d r ts ds found adds_t ∙ rest.runs;
      differ = rest.differ;
      kept = λ n h.
          rest.kept n (ground (arith, h))
          ∙ find_folder-replace_ne n m r ds (λ e. ground (arith, h, name_eq_iff n m)) named;
      changed = λ n t' d' r' h there adds'. elim (Bool-cases (name_eq n m)) [
        | inl hit ↦
            let same : n ≡ m = (name_eq_iff n m).0 hit in
            let t_same : t ≡ t' = ground (arith, h) in
            let d_same : d ≡ d' =
              some-injective d d' (sym found ∙ ap (λ k. find_folder k ds) (sym same) ∙ there) in
            let r_same : r ≡ r' =
              some-injective r r' (sym adds_t ∙ ap₂ add t_same d_same ∙ adds') in
            rest.kept n (ap (λ k. find_folder k ts) same ∙ uu.0)
            ∙ ap (λ k. find_folder k (replace_folder m r ds)) same
            ∙ find_folder-replace_self m r d ds named found
            ∙ ap some r_same
        | inr miss ↦
            rest.changed n t' d' r' (ground (arith, h))
              (find_folder-replace_ne n m r ds (λ e. ground (arith, name_eq_iff n m)) named ∙ there)
              adds'
      ];
    }
