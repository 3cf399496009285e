-- ===== src/FileSystem/OneFile.antt =====
-- A directory with one file `a`, for the examples.
use seven_deadly_syns.Prelude.{ℕ, refl, false, none, [], ◌∷◌, arith}
use seven_deadly_syns.FileSystem.Types.{
  File, folder, nil, FileSystem, file_equals, name_eq, same_flag, find_folder,
}
use seven_deadly_syns.FileSystem.Diff.{has}
use seven_deadly_syns.FileSystem.Update.Good.{Good, good}
use seven_deadly_syns.FileSystem.Serial.RoundTrip.{IsNamed, named}
use seven_deadly_syns.FileSystem.Serial.RoundTrip

abbrev pub a_file : ℕ → File
a_file t = record { name = b'a' ∷ []; size = 3; last_modified = t; is_folder = false }

abbrev pub tree : ℕ → FileSystem
tree t = record { root_path = none; root = folder [] (a_file t ∷ []) nil }

pub tree-Good : (t : ℕ) → Good (folder [] (a_file t ∷ []) nil)
unfolding has file_equals name_eq same_flag find_folder
tree-Good t =
    good [] (a_file t ∷ []) nil
      (record {
        no_repeat = (refl, tt);
        proper = (λ e. cc, tt);
        differ = tt;
        entries = λ n. ground arith;
      })
      (λ m d e. cc)

pub tree-IsNamed : (t : ℕ) → IsNamed (folder [] (a_file t ∷ []) nil)
tree-IsNamed t = named tt ((omega arith, tt), tt) RoundTrip.none_left
