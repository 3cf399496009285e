-- ===== src/FileSystem/Subtract/Counts.antt =====
-- folder_subtract at every path, by the number of files of each kind.
use seven_deadly_syns.Prelude.{
  ℕ, suc, ◌-◌, ◌≡◌, ap, ◌∙◌, Bool, true, false, if◌then◌else◌, List, [], ◌∷◌, arith, Bool-cases,
  inl, inr,
}
use seven_deadly_syns.Queue.Spec
use seven_deadly_syns.FileSystem.Types.{Name, File, Folder}
use seven_deadly_syns.FileSystem.Paths.{files_at, IsDistinct}
use seven_deadly_syns.FileSystem.Subtract.{subtract, subtract_files}
use seven_deadly_syns.FileSystem.Subtract.Laws.{files_at-subtract}

-- How many files of a list are equal to `x`?
abbrev pub count : (File → File → Bool) → File → List File → ℕ
count equals x [] = 0
count equals x (f ∷ fs) = let rest = count equals x fs in if equals x f then suc rest else rest

module _ (equals : File → File → Bool) (swap : (x y : File) → equals x y ≡ equals y x)
    (trans : (x y z : File) → equals x y ≡ true → equals x z ≡ equals y z) where
  count-erase :
      (x t : File) (fs : List File)
      → count equals x (Spec.erase (equals t) fs)
        ≡ (if equals x t then count equals x fs - 1 else count equals x fs)
  unfolding Spec.erase
  count-erase x t [] = ground arith
  count-erase x t (f ∷ fs) = elim (Bool-cases (equals x t)) [
    | inl same ↦ ground (arith, same, trans x t f same, count-erase x t fs)
    | inr other ↦ elim (Bool-cases (equals t f)) [
      | inl hit ↦
          let differs : equals x f ≡ false = elim (Bool-cases (equals x f)) [
            | inl as_f ↦ absurd (ground (arith, other, hit, as_f, trans x f t as_f, swap t f))
            | inr not_f ↦ not_f
          ] in
          ground (arith, other, hit, differs)
      | inr miss ↦ ground (arith, other, miss, count-erase x t fs)
    ]
  ]

  count-subtract_files :
      (x : File) (ts fs : List File)
      → count equals x (subtract_files equals ts fs) ≡ count equals x fs - count equals x ts
  unfolding subtract_files
  count-subtract_files x [] fs = omega arith
  count-subtract_files x (t ∷ ts) fs =
      count-subtract_files x ts (Spec.erase (equals t) fs) ∙ elim (Bool-cases (equals x t)) [
        | inl same ↦ ground (arith, same, count-erase x t fs)
        | inr other ↦ ground (arith, other, count-erase x t fs)
      ]

-- folder_subtract on trees of folder_new, with a test that is symmetric and transitive: at each path, the
-- number of files that are equal to a given one is what it was, less their number at this path of the other
-- tree, or 0 where that has more.
pub count-subtract :
    (equals : File → File → Bool)
    → ((x y : File) → equals x y ≡ equals y x)
    → ((x y z : File) → equals x y ≡ true → equals x z ≡ equals y z)
    → (p : List Name) (x : File) (t f : Folder) → IsDistinct t
    → IsDistinct f
    → count equals x (files_at p (subtract equals t f))
      ≡ count equals x (files_at p f) - count equals x (files_at p t)
count-subtract equals swap trans p x t f dt df =
    ap (count equals x) (files_at-subtract equals p t f dt df)
    ∙ count-subtract_files equals swap trans x (files_at p t) (files_at p f)
