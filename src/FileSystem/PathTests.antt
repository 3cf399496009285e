-- ===== src/FileSystem/PathTests.antt =====
-- The theorems of FileSystem on updates, listings and paths at concrete trees.
use mathlib.Core.List.{Perm}
use mathlib.Core.Path.{subst}
use seven_deadly_syns.Prelude.{ℕ, ◌≡◌, refl, true, false, none, some, List, [], ◌∷◌, arith}
use seven_deadly_syns.Queue.Spec
use seven_deadly_syns.FileSystem.Types.{
  Name, File, Folder, folder, nil, cons, FileSystem, find_folder, name_eq, file_equals, same_flag,
}
use seven_deadly_syns.FileSystem.Paths.{files_at, IsDistinct, distinct, none_left, one_more}
use seven_deadly_syns.FileSystem.Subtract.{diff}
use seven_deadly_syns.FileSystem.Diff.{has}
use seven_deadly_syns.FileSystem.Update.{minus_equals, plus_equals}
use seven_deadly_syns.FileSystem.Update.Good.{Good, good}
use seven_deadly_syns.FileSystem.Update.Sync.{plus-minus-diff}
use seven_deadly_syns.FileSystem.Listing.{file_first, folder_first}
use seven_deadly_syns.FileSystem.Listing.Order.{ListedAt, entry_at, path_of, listing_lem}
use seven_deadly_syns.FileSystem.Components.{get_path_components, filesystem_remove_file_at_path}
use seven_deadly_syns.FileSystem.Components.Split.{
  joined, get_path_components-joined, get_path_components_diverges,
}
use seven_deadly_syns.FileSystem.Components.Removal.{left_at, filesystem_remove_file_at_path_lem}

abbrev doc : ℕ → File
doc t = record { name = b'a' ∷ []; size = 3; last_modified = t; is_folder = false }

abbrev sub_file : File
sub_file = record { name = b'd' ∷ []; size = 0; last_modified = 0; is_folder = true }

abbrev note_file : File
note_file = record { name = b'n' ∷ []; size = 1; last_modified = 2; is_folder = false }

abbrev sub : List File → Folder
sub fs = folder (b'd' ∷ []) fs nil

-- The old tree has no folder `d`; the new one has it, with a file, and another time for `a`.
abbrev old_tree : FileSystem
old_tree = record { root_path = none; root = folder [] (doc 5 ∷ []) nil }

abbrev new_tree : FileSystem
new_tree = record {
  root_path = none;
  root = folder [] (doc 8 ∷ sub_file ∷ []) (cons (sub (note_file ∷ [])) nil);
}

old-Good : Good old_tree.root
unfolding has file_equals name_eq same_flag find_folder
old-Good =
    good [] (doc 5 ∷ []) nil
      (record {
        no_repeat = (refl, tt);
        proper = (λ e. cc, tt);
        differ = tt;
        entries = λ n. ground arith;
      })
      (λ m d e. cc)

sub-Good : Good (sub (note_file ∷ []))
unfolding has file_equals name_eq same_flag find_folder
sub-Good =
    good (b'd' ∷ []) (note_file ∷ []) nil
      (record {
        no_repeat = (refl, tt);
        proper = (λ e. cc, tt);
        differ = tt;
        entries = λ n. ground arith;
      })
      (λ m d e. cc)

only : (f : Folder) (m : Name) (d : Folder) → find_folder m (cons f nil) ≡ some d → f ≡ d
unfolding find_folder
only f m d e = ground (arith, e)

new-Good : Good new_tree.root
unfolding has file_equals name_eq same_flag find_folder
new-Good =
    good [] (doc 8 ∷ sub_file ∷ []) (cons (sub (note_file ∷ [])) nil)
      (record {
        no_repeat = (refl, (refl, tt));
        proper = (λ e. cc, (λ e. refl, tt));
        differ = (refl, tt);
        entries = λ n. ground arith;
      })
      (λ m d e. subst Good (only (sub (note_file ∷ [])) m d e) sub-Good)

plus-minus-diff_example :
    let (additions, deletions) = diff old_tree new_tree in
    (r : FileSystem) × (plus_equals (minus_equals old_tree deletions) additions ≡ some r)
    × ((p : List Name) (x : File) → has x (files_at p r.root) ≡ has x (files_at p new_tree.root))
plus-minus-diff_example = plus-minus-diff old_tree new_tree old-Good new-Good

new-IsDistinct : IsDistinct new_tree.root
unfolding find_folder
new-IsDistinct = distinct (refl, tt) (one_more (distinct tt none_left) none_left)

listing_lem_example :
    ((p : List Name) (x : File)
      → has x (files_at p new_tree.root) ≡ true
      → has (entry_at (path_of [] p) x) (file_first [] new_tree.root) ≡ true)
    × ((y : File) → has y (file_first [] new_tree.root) ≡ true → ListedAt [] new_tree.root y)
    × Perm (file_first [] new_tree.root) (folder_first [] new_tree.root)
listing_lem_example = listing_lem [] new_tree.root new-IsDistinct

-- "/d/n" and "/d"
abbrev note_path : List Name
note_path = (b'd' ∷ []) ∷ (b'n' ∷ []) ∷ []

get_path_components-joined_example : get_path_components 5 (joined note_path) ≡ some note_path
get_path_components-joined_example =
    get_path_components-joined 5 note_path
      ((λ e. cc, λ e. cc, tt), omega arith, ((λ e. cc, λ e. cc, tt), omega arith, tt))
      (unfold joined in omega arith)

get_path_components_diverges_example : get_path_components 100 (b'd' ∷ []) ≡ none
get_path_components_diverges_example = get_path_components_diverges 100 b'd' [] (λ e. cc) (λ e. cc)

filesystem_remove_file_at_path_lem_example :
    (r : FileSystem) × (filesystem_remove_file_at_path 4 new_tree (joined ((b'd' ∷ []) ∷ []))
      ≡ some r)
    × ((q : List Name) → files_at q r.root ≡ left_at [] (b'd' ∷ []) true q new_tree.root)
filesystem_remove_file_at_path_lem_example =
    filesystem_remove_file_at_path_lem 4 new_tree [] (b'd' ∷ []) sub_file new-Good
      ((λ e. cc, λ e. cc, tt), omega arith, tt) (unfold Spec.find files_at name_eq in refl)
      (unfold joined in omega arith)
