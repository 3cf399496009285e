-- ===== src/FileSystem/Tests.antt =====
-- The theorems of FileSystem at concrete trees.
use seven_deadly_syns.Prelude.{
  ℕ, ◌-◌, ◌≡◌, refl, ap, true, false, ◌&&◌, not, none, some, [], ◌∷◌, ◌++◌, length, arith,
}
use seven_deadly_syns.FileSystem.Types.{
  File, folder, nil, cons, FileSystem, find_folder, name_eq, file_equals, file_equals_iff,
  same_flag, files, replace_folder,
}
use seven_deadly_syns.Queue.Spec
use seven_deadly_syns.FileSystem.Paths.{files_at, IsDistinct, distinct, none_left, one_more}
use seven_deadly_syns.FileSystem.Subtract.{subtract, subtract_files, diff, is_empty}
use seven_deadly_syns.FileSystem.Subtract.Counts.{count, count-subtract}
use seven_deadly_syns.FileSystem.Diff.{has, NoRepeat, diff_lem}
use seven_deadly_syns.FileSystem.Serial.{serialize, deserialize}
use seven_deadly_syns.FileSystem.Serial.RoundTrip.{IsNamed, named, AllNamed, deserialize-serialize}
use seven_deadly_syns.FileSystem.Serial.RoundTrip
use seven_deadly_syns.FileSystem.Unary.{unary_io}

abbrev doc : ℕ → File
doc t = record { name = b'a' ∷ []; size = 3; last_modified = t; is_folder = false }

abbrev sub_file : File
sub_file = record { name = b'd' ∷ []; size = 0; last_modified = 0; is_folder = true }

abbrev note_file : File
note_file = record { name = b'n' ∷ []; size = 1; last_modified = 2; is_folder = false }

-- One file and one folder `d` with a file `n`; in the newer tree the file has another time, and
-- `d` is empty.
abbrev old_tree : FileSystem
old_tree = record {
  root_path = none;
  root = folder [] (doc 5 ∷ sub_file ∷ []) (cons (folder (b'd' ∷ []) (note_file ∷ []) nil) nil);
}

abbrev new_tree : FileSystem
new_tree = record {
  root_path = none;
  root = folder [] (doc 8 ∷ sub_file ∷ []) (cons (folder (b'd' ∷ []) [] nil) nil);
}

old-IsDistinct : IsDistinct old_tree.root
unfolding find_folder
old-IsDistinct = distinct (refl, tt) (one_more (distinct tt none_left) none_left)

new-IsDistinct : IsDistinct new_tree.root
unfolding find_folder
new-IsDistinct = distinct (refl, tt) (one_more (distinct tt none_left) none_left)

top-NoRepeat : (t : ℕ) → NoRepeat (doc t ∷ sub_file ∷ [])
unfolding has file_equals name_eq
top-NoRepeat t = (refl, (refl, tt))

equals_swap : (x y : File) → file_equals x y ≡ file_equals y x
equals_swap x y = ground (arith, file_equals_iff x y, file_equals_iff y x)

equals_trans : (x y z : File) → file_equals x y ≡ true → file_equals x z ≡ file_equals y z
equals_trans x y z h =
    let same : x ≡ y = (file_equals_iff x y).0 h in ap (λ f. file_equals f z) same

count-subtract_example :
    count file_equals sub_file (files_at [] (subtract file_equals old_tree.root new_tree.root))
    ≡ count file_equals sub_file (files_at [] new_tree.root)
      - count file_equals sub_file (files_at [] old_tree.root)
count-subtract_example =
    count-subtract file_equals equals_swap equals_trans [] sub_file old_tree.root new_tree.root
      old-IsDistinct new-IsDistinct

diff_lem_example :
    let (additions, deletions) = diff old_tree new_tree in
    (has (doc 8) (files_at [] additions.root)
      ≡ (has (doc 8) (files_at [] new_tree.root) && not (has (doc 8) (files_at [] old_tree.root))))
    × (has (doc 8) (files_at [] deletions.root) ≡ (
        has (doc 8) (files_at [] old_tree.root) && not (has (doc 8) (files_at [] new_tree.root))))
diff_lem_example =
    diff_lem old_tree new_tree [] (doc 8) old-IsDistinct new-IsDistinct
      (unfold files_at in top-NoRepeat 5) (unfold files_at in top-NoRepeat 8)

diff_run :
    let (additions, deletions) = diff old_tree new_tree in
    (files additions.root ≡ doc 8 ∷ [])
    × (files_at ((b'd' ∷ []) ∷ []) deletions.root ≡ note_file ∷ [])
unfolding diff files_at file_equals name_eq find_folder subtract_files Spec.erase same_flag is_empty
    replace_folder
diff_run = (refl, refl)

old-IsNamed : IsNamed old_tree.root
old-IsNamed =
    named tt ((omega arith, tt), ((omega arith, tt), tt))
      (RoundTrip.one_more (named (omega arith, tt) ((omega arith, tt), tt) RoundTrip.none_left)
        RoundTrip.none_left)

deserialize-serialize_example :
    deserialize unary_io (serialize unary_io old_tree ++ (7 ∷ []))
    ≡ some (record { root_path = none; root = old_tree.root }, length (serialize unary_io old_tree))
deserialize-serialize_example = deserialize-serialize unary_io old_tree (7 ∷ []) old-IsNamed
