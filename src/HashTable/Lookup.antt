-- ===== src/HashTable/Lookup.antt =====
-- The operations of a hash table against the list of its elements.
use mathlib.Core.List.{Perm}
use seven_deadly_syns.Prelude.{
  ℕ, zero, suc, ◌+◌, ◌%◌, ◌<◌, ◌≡◌, ◌≢◌, refl, sym, ap, ap₂, ◌∙◌, Bool, true, ◌==◌, if◌then◌else◌,
  Option, none, some, List, [], ◌∷◌, ◌++◌, length, length-set, replicate, length-replicate, get_or,
  get_or-set_self, get_or-set_ne, set, arith, Bool-cases, inl, inr,
}
use native.Mathlib.Nat.{mod-lt}
use seven_deadly_syns.Queue.Spec
use seven_deadly_syns.HashTable.{HashTable, bucket_search, bucket, get_element, remove_element, add}
use seven_deadly_syns.HashTable.Buckets.{
  flat, or_else, find-append, flat-push, ArePlaced, find-flat, erase-flat, erase-ArePlaced,
  push-ArePlaced,
}

module _ {A : Type 0} where
  -- The elements in the order of the buckets.
  unfoldable pub elements : HashTable A → List A
  unfolding flat
  elements ht = flat ht.table

module _ {A : Type 0} (hash : A → ℕ) (equals : A → A → Bool) where
  pub record IsValid (ht : HashTable A) : Type 0 where
    pub sized : length ht.table ≡ ht.tablesize
    pub positive : 0 < ht.tablesize
    pub placed : ArePlaced hash ht.tablesize 0 ht.table

  only : (e : A) (n : ℕ) (x : A) → bucket_search hash equals e x ≡ true → hash x % n ≡ hash e % n
  unfolding bucket_search
  only e n x h = ap (λ k. k % n) (ground (arith, h))

  rejects :
      (n : ℕ) (e key : A)
      → hash key % n ≢ hash e % n
      → (if bucket_search hash equals key e then some e else none) ≡ none
  rejects n e key ne = elim (Bool-cases (bucket_search hash equals key e)) [
    | inl hit ↦ absurd (ne (sym (only key n e hit)))
    | inr miss ↦ rw miss refl
  ]

  pub or_else-none : (o : Option A) → or_else o none ≡ o
  or_else-none none = refl
  or_else-none (some x) = refl

  get_element-find :
      (ht : HashTable A) (e : A)
      → IsValid ht
      → get_element hash equals ht e ≡ Spec.find (bucket_search hash equals e) (elements ht)
  unfolding get_element elements bucket
  get_element-find ht e v = sym (
      find-flat hash ht.tablesize (bucket_search hash equals e) (hash e % ht.tablesize)
        (only e ht.tablesize) 0 (hash e % ht.tablesize) ht.table v.placed (omega arith))

  get_element-add :
      (ht : HashTable A) (e key : A)
      → IsValid ht
      → get_element hash equals (add hash equals ht e) key
        ≡ or_else
            (get_element hash equals ht key)
            (if bucket_search hash equals key e then some e else none)
  unfolding get_element add bucket Spec.push
  get_element-add ht e key v =
      elim (Bool-cases (hash key % ht.tablesize == hash e % ht.tablesize)) [
        | inl same ↦
            let search = bucket_search hash equals key in
            let k = hash e % ht.tablesize in
            let at : hash key % ht.tablesize ≡ k = ground arith in
            let b = get_or ht.table k [] in
            ap (λ i. Spec.find search (get_or (set ht.table k (b ++ (e ∷ []))) i [])) at
            ∙ ap (Spec.find search) (
                get_or-set_self ht.table k (b ++ (e ∷ [])) []
                  (omega (arith, mod-lt (hash e) v.positive, v.sized)))
            ∙ find-append search b (e ∷ [])
            ∙ ap₂ or_else (ap (λ i. Spec.find search (get_or ht.table i [])) (sym at))
                (unfold Spec.find in refl)
        | inr other ↦
            let search = bucket_search hash equals key in
            let k = hash e % ht.tablesize in
            ap (Spec.find search)
              (get_or-set_ne ht.table k (hash key % ht.tablesize) _ [] (λ s. ground arith))
            ∙ sym (ap (or_else _) (rejects ht.tablesize e key (λ s. ground arith)) ∙ or_else-none _)
      ]

  -- hashtable_get_element and hashtable_remove_element give the first element with the hash and equal to
  -- the key; hashtable_remove_element takes exactly that out of the elements. hashtable_add puts one
  -- element in, behind those that it could be mistaken for. Both keep each element in the bucket of its
  -- hash.
  pub hash_table_lem :
      (ht : HashTable A) (e : A)
      → IsValid ht
      → let search = bucket_search hash equals e in
        (get_element hash equals ht e ≡ Spec.find search (elements ht))
        × ((remove_element hash equals ht e).0 ≡ Spec.find search (elements ht))
        × (elements (remove_element hash equals ht e).1 ≡ Spec.erase search (elements ht))
        × IsValid (remove_element hash equals ht e).1
        × Perm (elements (add hash equals ht e)) (e ∷ elements ht)
        × ((key : A)
            → get_element hash equals (add hash equals ht e) key
              ≡ or_else
                  (get_element hash equals ht key)
                  (if bucket_search hash equals key e then some e else none))
        × IsValid (add hash equals ht e)
  unfolding remove_element add elements bucket Spec.push
  hash_table_lem ht e v =
      let k = hash e % ht.tablesize in
      (
        get_element-find ht e v,
        (unfold get_element in get_element-find ht e v),
        erase-flat hash ht.tablesize (bucket_search hash equals e) k (only e ht.tablesize) 0 k
            ht.table v.placed (omega arith),
        record {
          sized = length-set ht.table k _ ∙ v.sized;
          positive = v.positive;
          placed =
              erase-ArePlaced hash ht.tablesize (bucket_search hash equals e) 0 k ht.table v.placed;
        },
        flat-push ht.table k e (omega (arith, mod-lt (hash e) v.positive, v.sized)),
        λ key. get_element-add ht e key v,
        record {
          sized = length-set ht.table k _ ∙ v.sized;
          positive = v.positive;
          placed = push-ArePlaced hash ht.tablesize e 0 k ht.table v.placed (omega arith);
        },
      )

  empty-ArePlaced : (m i n : ℕ) → ArePlaced hash n i (replicate m [])
  empty-ArePlaced zero i n = tt
  empty-ArePlaced (suc m) i n = (tt, empty-ArePlaced m (i + 1) n)

  pub new-IsValid : (m : ℕ) → 0 < m → IsValid (record { table = replicate m []; tablesize = m })
  new-IsValid m h = record {
    sized = length-replicate m [];
    positive = h;
    placed = empty-ArePlaced m 0 m;
  }
