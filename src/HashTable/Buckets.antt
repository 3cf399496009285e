-- ===== src/HashTable/Buckets.antt =====
-- The elements of a hash table, bucket by bucket, each in the bucket of its hash.
use mathlib.Core.List.{Perm, perm_append_singleton, perm_middle}
use mathlib.Core.List.Perm
use seven_deadly_syns.Prelude.{
  ℕ, zero, suc, ◌+◌, ◌%◌, ◌<◌, ◌≡◌, ◌≢◌, refl, sym, ap, ◌∙◌, Bool, true, Option, none, some, List,
  [], ◌∷◌, ◌++◌, length, get_or, set, arith, Bool-cases, inl, inr,
}
use seven_deadly_syns.Queue.Spec

module _ {A : Type 0} where
  unfoldable pub flat : List (List A) → List A
  flat [] = []
  flat (b ∷ bs) = b ++ flat bs

  abbrev pub or_else : Option A → Option A → Option A
  or_else none o = o
  or_else (some x) o = some x

  pub find-append :
      (test : A → Bool) (xs ys : List A)
      → Spec.find test (xs ++ ys) ≡ or_else (Spec.find test xs) (Spec.find test ys)
  unfolding Spec.find
  find-append test [] ys = refl
  find-append test (x ∷ xs) ys = ground (arith, find-append test xs ys)

  erase-append_left :
      (test : A → Bool) (xs ys : List A)
      → Spec.find test ys ≡ none
      → Spec.erase test (xs ++ ys) ≡ Spec.erase test xs ++ ys
  unfolding Spec.find Spec.erase
  erase-append_left test [] [] h = refl
  erase-append_left test [] (y ∷ ys) h = ground (arith, h, erase-append_left test [] ys)
  erase-append_left test (x ∷ xs) ys h = ground (arith, erase-append_left test xs ys)

  erase-append_right :
      (test : A → Bool) (xs ys : List A)
      → Spec.find test xs ≡ none
      → Spec.erase test (xs ++ ys) ≡ xs ++ Spec.erase test ys
  unfolding Spec.find Spec.erase
  erase-append_right test [] ys h = refl
  erase-append_right test (x ∷ xs) ys h = ground (arith, h, erase-append_right test xs ys)

  -- An element more in one bucket.
  pub flat-push :
      (bs : List (List A)) (j : ℕ) (x : A)
      → j < length bs
      → Perm (flat (set bs j (get_or bs j [] ++ (x ∷ [])))) (x ∷ flat bs)
  unfolding flat
  flat-push [] j x h = absurd (omega arith)
  flat-push (b ∷ bs) zero x h = Perm.append_right (flat bs) (perm_append_singleton x b)
  flat-push (b ∷ bs) (suc j) x h =
      Perm.trans (Perm.append_left b (flat-push bs j x (omega arith))) (perm_middle b (flat bs))

module _ {A : Type 0} (hash : A → ℕ) (n : ℕ) where
  abbrev pub InBucket : ℕ → List A → Type 0
  InBucket i [] = Unit {0}
  InBucket i (x ∷ xs) = (hash x % n ≡ i) × InBucket i xs

  -- The buckets from index `i` on.
  abbrev pub ArePlaced : ℕ → List (List A) → Type 0
  ArePlaced i [] = Unit {0}
  ArePlaced i (b ∷ bs) = InBucket i b × ArePlaced (i + 1) bs

  module _ (test : A → Bool) (k : ℕ) (only : (x : A) → test x ≡ true → hash x % n ≡ k) where
    find-other : (i : ℕ) (xs : List A) → InBucket i xs → i ≢ k → Spec.find test xs ≡ none
    unfolding Spec.find
    find-other i [] h ne = refl
    find-other i (x ∷ xs) h ne = elim (Bool-cases (test x)) [
      | inl hit ↦ absurd (ne (sym h.0 ∙ only x hit))
      | inr miss ↦ rw miss (find-other i xs h.1 ne)
    ]

    find-behind :
        (i : ℕ) (bs : List (List A)) → ArePlaced i bs → k < i → Spec.find test (flat bs) ≡ none
    unfolding flat
    find-behind i [] h lt = unfold Spec.find in refl
    find-behind i (b ∷ bs) h lt =
        find-append test b (flat bs)
        ∙ ground
            (arith, find-other i b h.0 (λ e. omega arith), find-behind (i + 1) bs h.1 (omega arith))

    pub find-flat :
        (i j : ℕ) (bs : List (List A))
        → ArePlaced i bs
        → i + j ≡ k
        → Spec.find test (flat bs) ≡ Spec.find test (get_or bs j [])
    unfolding flat
    find-flat i j [] h e = refl
    find-flat i zero (b ∷ bs) h e =
        find-append test b (flat bs) ∙ ground (arith, find-behind (i + 1) bs h.1 (omega arith))
    find-flat i (suc j) (b ∷ bs) h e =
        find-append test b (flat bs)
        ∙ ground
            (arith, find-other i b h.0 (λ s. omega arith), find-flat (i + 1) j bs h.1 (omega arith))

    pub erase-flat :
        (i j : ℕ) (bs : List (List A))
        → ArePlaced i bs
        → i + j ≡ k
        → flat (set bs j (Spec.erase test (get_or bs j []))) ≡ Spec.erase test (flat bs)
    unfolding flat
    erase-flat i j [] h e = unfold Spec.erase in refl
    erase-flat i zero (b ∷ bs) h e =
        sym (erase-append_left test b (flat bs) (find-behind (i + 1) bs h.1 (omega arith)))
    erase-flat i (suc j) (b ∷ bs) h e =
        ap (◌++◌ b) (erase-flat (i + 1) j bs h.1 (omega arith))
        ∙ sym (erase-append_right test b (flat bs) (find-other i b h.0 (λ s. omega arith)))

  erase-InBucket :
      (test : A → Bool) (i : ℕ) (xs : List A) → InBucket i xs → InBucket i (Spec.erase test xs)
  unfolding Spec.erase
  erase-InBucket test i [] h = tt
  erase-InBucket test i (x ∷ xs) h = elim (Bool-cases (test x)) [
    | inl hit ↦ rw hit h.1
    | inr miss ↦ rw miss (h.0, erase-InBucket test i xs h.1)
  ]

  push-InBucket :
      (i : ℕ) (xs : List A) (x : A) → InBucket i xs → hash x % n ≡ i → InBucket i (xs ++ (x ∷ []))
  push-InBucket i [] x h e = (e, tt)
  push-InBucket i (y ∷ xs) x h e = (h.0, push-InBucket i xs x h.1 e)

  pub erase-ArePlaced :
      (test : A → Bool) (i j : ℕ) (bs : List (List A))
      → ArePlaced i bs
      → ArePlaced i (set bs j (Spec.erase test (get_or bs j [])))
  erase-ArePlaced test i j [] h = tt
  erase-ArePlaced test i zero (b ∷ bs) h = (erase-InBucket test i b h.0, h.1)
  erase-ArePlaced test i (suc j) (b ∷ bs) h = (h.0, erase-ArePlaced test (i + 1) j bs h.1)

  pub push-ArePlaced :
      (x : A) (i j : ℕ) (bs : List (List A))
      → ArePlaced i bs
      → hash x % n ≡ i + j
      → ArePlaced i (set bs j (get_or bs j [] ++ (x ∷ [])))
  push-ArePlaced x i j [] h e = tt
  push-ArePlaced x i zero (b ∷ bs) h e = (push-InBucket i b x h.0 (e ∙ omega arith), h.1)
  push-ArePlaced x i (suc j) (b ∷ bs) h e =
      (h.0, push-ArePlaced x (i + 1) j bs h.1 (e ∙ omega arith))
