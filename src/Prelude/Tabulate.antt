-- ===== src/Prelude/Tabulate.antt =====
-- The list of the values of a function on a range of indices.
use Prim.Native.Nat.{ℕ, zero, suc, ◌+◌, ◌<◌}
use mathlib.Core.Path.{◌≡◌, refl, ap, ap₂, ◌∙◌}
use mathlib.Core.List.{List, [], ◌∷◌, ◌++◌}
use native.Mathlib.Omega.{arith}
use seven_deadly_syns.Prelude.Tests.{ltb, if◌then◌else◌}
use seven_deadly_syns.Prelude.Lists.{length, get_or}

module _ {ℓ} {A : Type ℓ} where
  -- `f i, f (i + 1), …`, `n` values.
  abbrev pub tabulate : (ℕ → A) → ℕ → ℕ → List A
  tabulate f i zero = []
  tabulate f i (suc n) = f i ∷ tabulate f (i + 1) n

  -- The list without its element at index `k`.
  abbrev pub remove_at : List A → ℕ → List A
  remove_at [] k = []
  remove_at (x ∷ xs) zero = xs
  remove_at (x ∷ xs) (suc k) = x ∷ remove_at xs k

module _ {ℓ} {A : Type ℓ} where
  pub length-tabulate : (f : ℕ → A) (i n : ℕ) → length (tabulate f i n) ≡ n
  length-tabulate f i zero = refl
  length-tabulate f i (suc n) = ap suc (length-tabulate f (i + 1) n)

  -- Two tables over ranges that a shift relates.
  pub tabulate-ext :
      (f g : ℕ → A) (n i j : ℕ)
      → ((k : ℕ) → k < n → f (k + i) ≡ g (k + j))
      → tabulate f i n ≡ tabulate g j n
  tabulate-ext f g zero i j h = refl
  tabulate-ext f g (suc n) i j h = ap₂ ◌∷◌ head (
      tabulate-ext f g n (i + 1) (j + 1)
        (λ k lt. ap f (omega arith) ∙ h (k + 1) (omega arith) ∙ ap g (omega arith)))
    where
      head : f i ≡ g j
      head = ap f (omega arith) ∙ h 0 (omega arith) ∙ ap g (omega arith)

  pub tabulate-snoc :
      (f : ℕ → A) (n i : ℕ) → tabulate f i (suc n) ≡ tabulate f i n ++ (f (i + n) ∷ [])
  tabulate-snoc f zero i = ap (λ k. f k ∷ []) (omega arith)
  tabulate-snoc f (suc n) i =
      ap (◌∷◌ (f i))
        (tabulate-snoc f n (i + 1) ∙ ap (λ k. tabulate f (i + 1) n ++ (f k ∷ [])) (omega arith))

  pub get_or-tabulate :
      (f : ℕ → A) (n i k : ℕ) (d : A) → k < n → get_or (tabulate f i n) k d ≡ f (i + k)
  get_or-tabulate f zero i k d h = elim h [ ]
  get_or-tabulate f (suc n) i zero d h = ap f (omega arith)
  get_or-tabulate f (suc n) i (suc k) d h =
      get_or-tabulate f n (i + 1) k d (omega arith) ∙ ap f (omega arith)

  -- Each list is the table of its own entries.
  pub tabulate-get_or : (xs : List A) (d : A) → tabulate (λ k. get_or xs k d) 0 (length xs) ≡ xs
  tabulate-get_or [] d = refl
  tabulate-get_or (x ∷ xs) d = ap (◌∷◌ x) (
      tabulate-ext (λ k. get_or (x ∷ xs) k d) (λ k. get_or xs k d) (length xs) (0 + 1) 0
        (λ k lt. shifted k)
      ∙ tabulate-get_or xs d)
    where
      shifted : (k : ℕ) → get_or (x ∷ xs) (k + (0 + 1)) d ≡ get_or xs (k + 0) d
      shifted k =
          let e : k + (0 + 1) ≡ suc k = omega arith in
          let e' : k + 0 ≡ k = omega arith in rw (e, e')

  -- Equal lengths and equal entries make equal lists.
  pub list-ext :
      (xs ys : List A) (d : A)
      → length xs ≡ length ys
      → ((k : ℕ) → k < length xs → get_or xs k d ≡ get_or ys k d)
      → xs ≡ ys
  list-ext [] [] d e h = refl
  list-ext [] (y ∷ ys) d e h = absurd (omega arith)
  list-ext (x ∷ xs) [] d e h = absurd (omega arith)
  list-ext (x ∷ xs) (y ∷ ys) d e h =
      ap₂ ◌∷◌ (h 0 (omega arith)) (list-ext xs ys d (omega arith) (λ k lt. h (suc k) (omega arith)))

  pub length-remove_at :
      (xs : List A) (k : ℕ) → k < length xs → length (remove_at xs k) + 1 ≡ length xs
  length-remove_at [] k h = elim h [ ]
  length-remove_at (x ∷ xs) zero h = omega arith
  length-remove_at (x ∷ xs) (suc k) h = omega (arith, length-remove_at xs k)

  pub get_or-remove_at :
      (xs : List A) (k j : ℕ) (d : A)
      → get_or (remove_at xs k) j d ≡ (if ltb j k then get_or xs j d else get_or xs (suc j) d)
  get_or-remove_at [] k j d = ground arith
  get_or-remove_at (x ∷ xs) zero j d = ground arith
  get_or-remove_at (x ∷ xs) (suc k) zero d = ground arith
  get_or-remove_at (x ∷ xs) (suc k) (suc j) d = get_or-remove_at xs k j d ∙ ground arith
