-- ===== src/HashTable/Iterate.antt =====
-- The iterator gives the elements bucket by bucket.
use seven_deadly_syns.Prelude.{
  ℕ, zero, suc, ◌+◌, ◌<◌, ◌≡◌, refl, sym, ap, ap₂, ◌∙◌, Option, none, some, List, [], ◌∷◌, ◌++◌,
  length, get_elem?, get_or, drop, drop-drop, arith, Option-cases, inl, inr,
}
use seven_deadly_syns.HashTable.{
  HashTable, HashTableIterator, bucket_next, first_filled, iterator_new, iterator_next,
}
use seven_deadly_syns.HashTable.Buckets.{flat}
use seven_deadly_syns.HashTable.Lookup.{elements}

module _ {A : Type 0} where
  -- The rest of a bucket, from a place on.
  abbrev behind : List A → Option ℕ → List A
  behind xs none = xs
  behind xs (some k) = drop (k + 1) xs

  -- What an iterator has still to give.
  abbrev pub remaining : HashTable A → HashTableIterator → List A
  remaining ht it =
      behind (get_or ht.table it.index []) it.last ++ flat (drop (it.index + 1) ht.table)

  drop-get_none : (xs : List A) (k : ℕ) → get_elem? xs k ≡ none → drop k xs ≡ []
  drop-get_none [] zero h = refl
  drop-get_none [] (suc k) h = refl
  drop-get_none (x ∷ xs) zero h = cc
  drop-get_none (x ∷ xs) (suc k) h = drop-get_none xs k h

  drop-get_some :
      (xs : List A) (k : ℕ) (x : A) → get_elem? xs k ≡ some x → drop k xs ≡ x ∷ drop (suc k) xs
  drop-get_some [] k x h = cc
  drop-get_some (y ∷ xs) zero x h = ap (λ z. z ∷ xs) (ground (arith, h))
  drop-get_some (y ∷ xs) (suc k) x h = drop-get_some xs k x h

  -- What bucket_next gives.
  bucket_next-none : (xs : List A) (p : Option ℕ) → (bucket_next xs p).0 ≡ none → behind xs p ≡ []
  unfolding bucket_next
  bucket_next-none [] none h = refl
  bucket_next-none (x ∷ xs) none h = cc
  bucket_next-none xs (some k) h = elim (Option-cases (get_elem? xs (k + 1))) [
    | inl e ↦ drop-get_none xs (k + 1) e
    | inr (x, e) ↦ absurd (ground (arith, e, h))
  ]

  bucket_next-some :
      (xs : List A) (p : Option ℕ) (x : A)
      → (bucket_next xs p).0 ≡ some x
      → behind xs p ≡ x ∷ behind xs (bucket_next xs p).1
  unfolding bucket_next
  bucket_next-some [] none x h = cc
  bucket_next-some (y ∷ xs) none x h = ap (λ z. z ∷ xs) (ground (arith, h))
  bucket_next-some xs (some k) x h = elim (Option-cases (get_elem? xs (k + 1))) [
    | inl e ↦ absurd (ground (arith, e, h))
    | inr (y, e) ↦
        drop-get_some xs (k + 1) y e
        ∙ rw (e, bucket_next)
            (let same : y ≡ x = ground (arith, e, h) in
              let next : suc (k + 1) ≡ k + 1 + 1 = omega arith in
              ap₂ (λ z n. z ∷ drop n xs) same next)
  ]

  first_filled-none : (bs : List (List A)) (i : ℕ) → first_filled bs i ≡ none → flat bs ≡ []
  unfolding first_filled flat
  first_filled-none [] i h = refl
  first_filled-none ([] ∷ bs) i h = first_filled-none bs (i + 1) h
  first_filled-none ((x ∷ xs) ∷ bs) i h = cc

  record Filled (bs : List (List A)) (i m : ℕ) : Type 0 where
    at : ℕ
    first : A
    others : List A
    place : m ≡ i + at
    content : get_or bs at [] ≡ first ∷ others
    all : flat bs ≡ (first ∷ others) ++ flat (drop (suc at) bs)

  first_filled-some : (bs : List (List A)) (i m : ℕ) → first_filled bs i ≡ some m → Filled bs i m
  unfolding first_filled flat
  first_filled-some [] i m h = cc
  first_filled-some ([] ∷ bs) i m h =
      let f = first_filled-some bs (i + 1) m h in
      record {
        at = suc f.at;
        first = f.first;
        others = f.others;
        place = f.place ∙ omega arith;
        content = f.content;
        all = f.all;
      }
  first_filled-some ((x ∷ xs) ∷ bs) i m h = record {
    at = 0;
    first = x;
    others = xs;
    place = (let e : i ≡ m = ground (arith, h) in omega arith);
    content = refl;
    all = refl;
  }

  get_or-drop : (n k : ℕ) (bs : List (List A)) → get_or (drop n bs) k [] ≡ get_or bs (n + k) []
  get_or-drop zero k bs = let e : k ≡ 0 + k = omega arith in ap (λ j. get_or bs j []) e
  get_or-drop (suc n) k [] = refl
  get_or-drop (suc n) k (b ∷ bs) =
      let e : suc (n + k) ≡ suc n + k = omega arith in
      get_or-drop n k bs ∙ ap (λ j. get_or (b ∷ bs) j []) e

  next-same :
      (ht : HashTable A) (it : HashTableIterator) (x : A)
      → (bucket_next (get_or ht.table it.index []) it.last).0 ≡ some x
      → iterator_next ht it
        ≡ (some x, record it { last = (bucket_next (get_or ht.table it.index []) it.last).1 })
  unfolding iterator_next
  next-same ht it x e = ground (arith, e)

  next-end :
      (ht : HashTable A) (it : HashTableIterator)
      → (bucket_next (get_or ht.table it.index []) it.last).0 ≡ none
      → first_filled (drop (it.index + 1) ht.table) (it.index + 1) ≡ none
      → (iterator_next ht it).0 ≡ none
  unfolding iterator_next
  next-end ht it e f = ground (arith, e, f)

  next-other :
      (ht : HashTable A) (it : HashTableIterator) (m : ℕ) (x : A) (xs : List A)
      → (bucket_next (get_or ht.table it.index []) it.last).0 ≡ none
      → first_filled (drop (it.index + 1) ht.table) (it.index + 1) ≡ some m
      → get_or ht.table m [] ≡ x ∷ xs
      → iterator_next ht it ≡ (some x, record { index = m; last = some 0 })
  unfolding iterator_next bucket_next
  next-other ht it m x xs e f g = ground (arith, e, f, g)

  -- What a call of hashtableiterator_next gives, by what the iterator has still to give.
  data Gives (ht : HashTable A) (it : HashTableIterator) : Type 0 where
    ends : remaining ht it ≡ [] → (iterator_next ht it).0 ≡ none → Gives ht it
    gives :
        (x : A) (it' : HashTableIterator)
        → remaining ht it ≡ x ∷ remaining ht it'
        → iterator_next ht it ≡ (some x, it')
        → Gives ht it

  iterator_next-Gives : (ht : HashTable A) (it : HashTableIterator) → Gives ht it
  iterator_next-Gives ht it =
      let b = get_or ht.table it.index [] in
      let later = drop (it.index + 1) ht.table in
      elim (Option-cases ((bucket_next b it.last).0)) [
        | inr (x, e) ↦
            gives x (record it { last = (bucket_next b it.last).1 })
              (ap (λ xs. xs ++ flat later) (bucket_next-some b it.last x e)) (next-same ht it x e)
        | inl e ↦
            let start = ap (λ xs. xs ++ flat later) (bucket_next-none b it.last e) in
            elim (Option-cases (first_filled later (it.index + 1))) [
              | inl f ↦ ends (start ∙ first_filled-none later (it.index + 1) f) (next-end ht it e f)
              | inr (m, f) ↦
                  let r = first_filled-some later (it.index + 1) m f in
                  let there : get_or ht.table m [] ≡ r.first ∷ r.others =
                    ap (λ k. get_or ht.table k []) r.place
                    ∙ sym (get_or-drop (it.index + 1) r.at ht.table)
                    ∙ r.content in
                  let place : it.index + 1 + suc r.at ≡ m + 1 = omega (arith, r.place) in
                  gives r.first (record { index = m; last = some 0 })
                    (start
                      ∙ r.all
                      ∙ ap (λ xs. r.first ∷ (r.others ++ flat xs))
                          (drop-drop (it.index + 1) (suc r.at) ht.table
                            ∙ ap (λ k. drop k ht.table) place)
                      ∙ ap (λ xs. r.first ∷ (xs ++ flat (drop (m + 1) ht.table)))
                          (sym (ap (drop 1) there)))
                    (next-other ht it m r.first r.others e f there)
            ]
      ]

  -- Calls of hashtableiterator_next until it gives NULL, at most `fuel`.
  unfoldable pub collect : ℕ → HashTable A → HashTableIterator → List A
  unfolding iterator_next
  collect zero ht it = []
  collect (suc fuel) ht it =
      let (element, it') = iterator_next ht it in
      elim element [ none ↦ [] | some x ↦ x ∷ collect fuel ht it' ]

  -- The loop `hashtableiterator_new`, then `while ((entry = hashtableiterator_next(hti)))`.
  unfoldable pub iterate : ℕ → HashTable A → List A
  unfolding iterator_new collect
  iterate fuel ht = elim (iterator_new ht) [ none ↦ [] | some it ↦ collect fuel ht it ]

  collect-end :
      (fuel : ℕ) (ht : HashTable A) (it : HashTableIterator)
      → (iterator_next ht it).0 ≡ none
      → collect (suc fuel) ht it ≡ []
  unfolding collect
  collect-end fuel ht it f = ground (arith, f)

  collect-step :
      (fuel : ℕ) (ht : HashTable A) (it it' : HashTableIterator) (x : A)
      → iterator_next ht it ≡ (some x, it')
      → collect (suc fuel) ht it ≡ x ∷ collect fuel ht it'
  unfolding collect
  collect-step fuel ht it it' x f = ground (arith, f)

  collect-remaining :
      (fuel : ℕ) (ht : HashTable A) (it : HashTableIterator)
      → length (remaining ht it) < fuel
      → collect fuel ht it ≡ remaining ht it
  collect-remaining zero ht it h = absurd (omega arith)
  collect-remaining (suc fuel) ht it h = elim (iterator_next-Gives ht it) [
    | ends e f ↦ collect-end fuel ht it f ∙ sym e
    | gives x it' e f ↦
        collect-step fuel ht it it' x f
        ∙ ap (◌∷◌ x) (collect-remaining fuel ht it' (omega (arith, ap length e)))
        ∙ sym e
  ]

  iterate-none :
      (fuel : ℕ) (ht : HashTable A) → first_filled ht.table 0 ≡ none → iterate fuel ht ≡ []
  unfolding iterate iterator_new
  iterate-none fuel ht e = ground (arith, e)

  iterate-some :
      (fuel m : ℕ) (ht : HashTable A)
      → first_filled ht.table 0 ≡ some m
      → iterate fuel ht ≡ collect fuel ht (record { index = m; last = none })
  unfolding iterate iterator_new
  iterate-some fuel m ht e = ground (arith, e)

  -- The loop with the iterator gives each element of a hash table once, bucket by bucket, and ends, one
  -- call of hashtableiterator_next after the last element.
  pub iterate-elements :
      (fuel : ℕ) (ht : HashTable A) → length (elements ht) < fuel → iterate fuel ht ≡ elements ht
  unfolding elements
  iterate-elements fuel ht h = elim (Option-cases (first_filled ht.table 0)) [
    | inl e ↦ iterate-none fuel ht e ∙ sym (first_filled-none ht.table 0 e)
    | inr (m, e) ↦
        let r = first_filled-some ht.table 0 m e in
        let at : m ≡ r.at = omega (arith, r.place) in
        let next : suc r.at ≡ m + 1 = omega (arith, r.place) in
        let all : remaining ht (record { index = m; last = none }) ≡ flat ht.table =
          ap (λ k. get_or ht.table k [] ++ flat (drop (m + 1) ht.table)) at
          ∙ ap (λ xs. xs ++ flat (drop (m + 1) ht.table)) r.content
          ∙ ap (λ k. (r.first ∷ r.others) ++ flat (drop k ht.table)) (sym next)
          ∙ sym r.all in
        iterate-some fuel m ht e
        ∙ collect-remaining fuel ht (record { index = m; last = none })
            (omega (arith, ap length all, h))
        ∙ all
  ]
