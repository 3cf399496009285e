-- ===== src/SdSet/Set.antt =====
-- sdset_set, sdset_get and sdset_get_index on valid sets.
use mathlib.Core.Option.{some-injective}
use seven_deadly_syns.Prelude.{
  ℕ, ◌+◌, ◌<◌, ◌≤◌, ◌≡◌, ◌≢◌, refl, sym, ap, ◌∙◌, Bool, true, false, ◌==◌, ltb, if◌then◌else◌, none,
  some, Ptr, set, length-set, get_or-set_self, get_or-set_ne, arith, Bool-cases, inl, inr,
}
use seven_deadly_syns.SdSet.{SdSet, is_set, get, get_index, clear, new, grow, put}
use seven_deadly_syns.SdSet.Pigeon.{pigeon}
use seven_deadly_syns.SdSet.Grow.{
  key_at, index_at, value_at, IsValid, size_le, holds, is_set-holds, get-holds, Grown, grow-Grown,
}

module _ {A : Type 0} where
  -- The writes of sdset_set after the growth.
  abbrev pub entered : SdSet A → ℕ → Ptr A → SdSet A
  entered s key value = record s {
    dense = set s.dense s.size key;
    sparse = set s.sparse key s.size;
    values = set s.values key value;
    size = s.size + 1;
  }

  -- A key that is not set leaves room for itself.
  room_lem :
      (s : SdSet A) (key : ℕ) → IsValid s → key < s.space → holds s key ≡ false → s.size < s.space
  room_lem s key v h fresh =
      let more =
        pigeon s.space (s.size + 1) (λ i. if i == s.size then key else key_at s i)
          (λ k. if k == key then s.size else index_at s k) (λ i lt. ground (arith, v.keys i))
          (λ i lt. ground (arith, v.keys i, v.back i)) in
      omega (arith, more)

  entered-key :
      (s : SdSet A) (key i : ℕ) (value : Ptr A)
      → IsValid s
      → s.size < s.space
      → i < s.size + 1
      → key_at (entered s key value) i ≡ (if i == s.size then key else key_at s i)
  entered-key s key i value v room h = elim (Bool-cases (i == s.size)) [
    | inl last ↦
        let e : i ≡ s.size = ground arith in
        rw (last, e) (get_or-set_self s.dense s.size key 0 (omega (arith, v.dense_length)))
    | inr other ↦ rw other (get_or-set_ne s.dense s.size i key 0 (λ e. ground arith))
  ]

  entered-index_self :
      (s : SdSet A) (key : ℕ) (value : Ptr A)
      → IsValid s
      → key < s.space
      → index_at (entered s key value) key ≡ s.size
  entered-index_self s key value v h =
      get_or-set_self s.sparse key s.size 0 (omega (arith, v.sparse_length))

  entered-IsValid :
      (s : SdSet A) (key : ℕ) (value : Ptr A)
      → IsValid s
      → key < s.space
      → holds s key ≡ false
      → IsValid (entered s key value)
  entered-IsValid s key value v h fresh =
      let room = room_lem s key v h fresh in
      record {
        dense_length = length-set s.dense s.size key ∙ v.dense_length;
        sparse_length = length-set s.sparse key s.size ∙ v.sparse_length;
        values_length = length-set s.values key value ∙ v.values_length;
        positive = v.positive;
        keys = λ i lt. ground (arith, entered-key s key i value v room lt, v.keys i);
        back = λ i lt. elim (Bool-cases (i == s.size)) [
          | inl last ↦
              ap (index_at (entered s key value)) (entered-key s key i value v room lt)
              ∙ rw last (entered-index_self s key value v h ∙ ground arith)
          | inr other ↦
              ap (index_at (entered s key value)) (entered-key s key i value v room lt)
              ∙ rw other (
                  get_or-set_ne s.sparse key (key_at s i) s.size 0 (λ e. ground (arith, v.back i))
                  ∙ v.back i (ground arith))
        ];
      }

  entered-holds_self :
      (s : SdSet A) (key : ℕ) (value : Ptr A)
      → IsValid s
      → key < s.space
      → s.size < s.space
      → holds (entered s key value) key ≡ true
  entered-holds_self s key value v h room =
      ground (arith, entered-index_self s key value v h, entered-key s key s.size value v room)

  entered-holds_ne :
      (s : SdSet A) (key k : ℕ) (value : Ptr A)
      → IsValid s
      → key < s.space
      → s.size < s.space
      → k ≢ key
      → holds (entered s key value) k ≡ holds s k
  entered-holds_ne s key k value v h room ne = ground (
    arith,
    get_or-set_ne s.sparse key k s.size 0 (λ e. ne (sym e)),
    entered-key s key (index_at s k) value v room,
  )

  get_index-below :
      (s : SdSet A) (i : ℕ)
      → IsValid s
      → i < s.size
      → get_index s i ≡ some (value_at s (key_at s i))
  unfolding get_index
  get_index-below s i v h = ground (arith, size_le s v, v.keys i h)

  is_set-below : (s : SdSet A) (k : ℕ) → is_set s k ≡ some true → k < s.space
  unfolding is_set
  is_set-below s k h = ground (arith, h)

  is_set_lem :
      (s : SdSet A) (k : ℕ)
      → IsValid s
      → is_set s k ≡ some true
      → (k < s.space) × (holds s k ≡ true)
  is_set_lem s k v h =
      let under = is_set-below s k h in
      (under, some-injective (holds s k) true (sym (is_set-holds s k v under) ∙ h))

  got :
      {b b' : Bool} {x x' : Ptr A}
      → b ≡ b'
      → x ≡ x'
      → some (if b then x else none) ≡ some (if b' then x' else none)
  got e f = rw (e, f) refl

  -- sdset_get_index gives the value of the key at each index below the size, sdset_get gives the
  -- same for that key, and each key that is set stands at an index.
  get_index_lem :
      (s : SdSet A)
      → IsValid s
      → ((i : ℕ)
          → i < s.size
          → (get_index s i ≡ get s (key_at s i)) × (is_set s (key_at s i) ≡ some true))
        × ((k : ℕ) → is_set s k ≡ some true → (i : ℕ) × (i < s.size) × (key_at s i ≡ k))
  get_index_lem s v = (
    λ i h.
        let there : holds s (key_at s i) ≡ true = ground (arith, v.back i h) in
        (
          get_index-below s i v h ∙ sym (get-holds s (key_at s i) v (v.keys i h) ∙ rw there refl),
          is_set-holds s (key_at s i) v (v.keys i h) ∙ ap some there,
        ),
    λ k h. let (under, there) = is_set_lem s k v h in (index_at s k, ground arith, ground arith),
  )

module _ {A : Type 0} (word : ℕ → ℕ) (pointer : ℕ → Ptr A) where
  holds-Grown :
      (s r : SdSet A) (key : ℕ)
      → IsValid s
      → Grown s r
      → is_set s key ≢ some true
      → holds r key ≡ false
  holds-Grown s r key v g fresh = elim (Bool-cases (ltb key s.space)) [
    | inr over ↦ g.unset key (ground arith)
    | inl under ↦ elim (Bool-cases (holds s key)) [
      | inl there ↦ absurd (fresh (is_set-holds s key v (ground arith) ∙ ap some there))
      | inr absent ↦ g.kept key (ground arith) ∙ absent
    ]
  ]

  put-room :
      (s : SdSet A) (key : ℕ) (value : Ptr A)
      → (grow word pointer (key + 1) key s).size < (grow word pointer (key + 1) key s).space
      → put word pointer s key value ≡ some (entered (grow word pointer (key + 1) key s) key value)
  unfolding put
  put-room s key value h = ground arith

  -- sdset_set with a key that is not set, on a valid set, stays in bounds, whatever the fresh memory
  -- holds; the result is valid and has one key more. sdset_get of the key gives its value; for every
  -- other key below the old space it gives what it did, and for one from the old space on, below the new
  -- space, NULL.
  pub put_lem :
      (s : SdSet A) (key : ℕ) (value : Ptr A)
      → IsValid s
      → is_set s key ≢ some true
      → (r : SdSet A) × (put word pointer s key value ≡ some r)
        × IsValid r
        × (r.size ≡ s.size + 1)
        × (get r key ≡ some value)
        × ((k : ℕ) → k ≢ key → k < s.space → get r k ≡ get s k)
        × ((k : ℕ) → k ≢ key → s.space ≤ k → k < r.space → get r k ≡ some none)
  put_lem s key value v fresh =
      let (g, under) = grow-Grown word pointer (key + 1) key s v (omega arith) in
      let r = grow word pointer (key + 1) key s in
      let absent = holds-Grown s r key v g fresh in
      let room = room_lem r key g.valid under absent in
      let valid = entered-IsValid r key value g.valid under absent in
      (
        entered r key value,
        put-room s key value room,
        valid,
        omega (arith, g.same_size),
        get-holds (entered r key value) key valid under
            ∙ got (entered-holds_self r key value g.valid under room)
                (get_or-set_self r.values key value none (omega (arith, g.valid.values_length))),
        λ k ne h.
            get-holds (entered r key value) k valid (omega (arith, g.more))
            ∙ got (entered-holds_ne r key k value g.valid under room ne ∙ g.kept k h)
                (get_or-set_ne r.values key k value none (λ e. ne (sym e)) ∙ g.same_value k h)
            ∙ sym (get-holds s k v h),
        λ k ne h h'.
            get-holds (entered r key value) k valid h'
            ∙ got (entered-holds_ne r key k value g.valid under room ne ∙ g.unset k h) refl,
      )

  get-empty : (s : SdSet A) (k : ℕ) → IsValid s → s.size ≡ 0 → k < s.space → get s k ≡ some none
  get-empty s k v e h =
      let absent : holds s k ≡ false = ground arith in get-holds s k v h ∙ rw absent refl

  pub new-IsValid : IsValid (new word pointer)
  unfolding new
  new-IsValid = record {
    dense_length = refl;
    sparse_length = refl;
    values_length = refl;
    positive = omega arith;
    keys = λ i h. absurd (omega arith);
    back = λ i h. absurd (omega arith);
  }

  new-size : (new word pointer).size ≡ 0
  unfolding new
  new-size = refl

  clear-IsValid :
      (s : SdSet A)
      → IsValid s
      → IsValid (clear s) × ((clear s).size ≡ 0) × ((clear s).space ≡ s.space)
  unfolding clear
  clear-IsValid s v = (
    record {
      dense_length = v.dense_length;
      sparse_length = v.sparse_length;
      values_length = v.values_length;
      positive = v.positive;
      keys = λ i h. absurd (omega arith);
      back = λ i h. absurd (omega arith);
    },
    refl,
    refl,
  )

  -- sdset_new makes a valid set, and sdset_clear leaves one, in which no key is set.
  new_clear_lem :
      (s : SdSet A)
      → IsValid s
      → IsValid (new word pointer)
        × ((k : ℕ) → k < (new word pointer).space → get (new word pointer) k ≡ some none)
        × IsValid (clear s)
        × ((k : ℕ) → k < s.space → get (clear s) k ≡ some none)
  new_clear_lem s v =
      let (valid, emptied, same) = clear-IsValid s v in
      (
        new-IsValid,
        λ k h. get-empty (new word pointer) k new-IsValid new-size h,
        valid,
        λ k h. get-empty (clear s) k valid emptied (omega (arith, same)),
      )
