-- ===== src/SdSet/Grow.antt =====
-- The growth of a sparse set: what realloc leaves in the new words does not matter.
use seven_deadly_syns.Prelude.{
  ℕ, zero, suc, ◌+◌, ◌*◌, ◌<◌, ◌≤◌, ◌≡◌, refl, sym, ap, ◌∙◌, Bool, false, ◌&&◌, ◌==◌, ltb, leb,
  if◌then◌else◌, none, some, Ptr, get_or, length, length-append, get_or-append_left, tabulate,
  length-tabulate, arith, Bool-cases, inl, inr,
}
use seven_deadly_syns.SdSet.{SdSet, is_set, get, double, grow}
use seven_deadly_syns.SdSet.Pigeon.{pigeon}

module _ {A : Type 0} where
  abbrev pub key_at : SdSet A → ℕ → ℕ
  key_at s i = get_or s.dense i 0

  abbrev pub index_at : SdSet A → ℕ → ℕ
  index_at s k = get_or s.sparse k 0

  abbrev pub value_at : SdSet A → ℕ → Ptr A
  value_at s k = get_or s.values k none

  -- The first `size` entries of `dense` are keys, and `sparse` says where each of them stands.
  pub record IsValid (s : SdSet A) : Type 0 where
    pub dense_length : length s.dense ≡ s.space
    pub sparse_length : length s.sparse ≡ s.space
    pub values_length : length s.values ≡ s.space
    pub positive : 0 < s.space
    pub keys : (i : ℕ) → i < s.size → key_at s i < s.space
    pub back : (i : ℕ) → i < s.size → index_at s (key_at s i) ≡ i

  pub size_le : (s : SdSet A) → IsValid s → s.size ≤ s.space
  size_le s v = pigeon s.space s.size (key_at s) (index_at s) v.keys v.back

  abbrev pub holds : SdSet A → ℕ → Bool
  holds s k = ltb (index_at s k) s.size && (key_at s (index_at s k) == k)

  pub is_set-holds : (s : SdSet A) (k : ℕ) → IsValid s → k < s.space → is_set s k ≡ some (holds s k)
  unfolding is_set
  is_set-holds s k v h = ground (arith, size_le s v)

  pub get-holds :
      (s : SdSet A) (k : ℕ)
      → IsValid s
      → k < s.space
      → get s k ≡ some (if holds s k then value_at s k else none)
  unfolding get
  get-holds s k v h = elim (Bool-cases (holds s k)) [
    | inl set_there ↦ rw (is_set-holds s k v h, get, set_there) refl
    | inr not_there ↦ rw (is_set-holds s k v h, get, not_there) refl
  ]

  pub record Grown (s r : SdSet A) : Type 0 where
    pub valid : IsValid r
    pub same_size : r.size ≡ s.size
    pub more : s.space ≤ r.space
    pub kept : (k : ℕ) → k < s.space → holds r k ≡ holds s k
    pub same_value : (k : ℕ) → k < s.space → value_at r k ≡ value_at s k
    pub unset : (k : ℕ) → s.space ≤ k → holds r k ≡ false

  Grown-refl : (s : SdSet A) → IsValid s → Grown s s
  Grown-refl s v = record {
    valid = v;
    same_size = refl;
    more = omega arith;
    kept = λ k h. refl;
    same_value = λ k h. refl;
    unset = λ k h. ground (arith, v.keys (index_at s k));
  }

  Grown-trans : (s r u : SdSet A) → Grown s r → Grown r u → Grown s u
  Grown-trans s r u a b = record {
    valid = b.valid;
    same_size = b.same_size ∙ a.same_size;
    more = omega (arith, a.more, b.more);
    kept = λ k h. b.kept k (omega (arith, a.more)) ∙ a.kept k h;
    same_value = λ k h. b.same_value k (omega (arith, a.more)) ∙ a.same_value k h;
    unset = λ k h. elim (Bool-cases (ltb k r.space)) [
      | inl below ↦ b.kept k (ground arith) ∙ a.unset k h
      | inr above ↦ b.unset k (ground arith)
    ];
  }

module _ {A : Type 0} (word : ℕ → ℕ) (pointer : ℕ → Ptr A) where
  double-key :
      (s : SdSet A) (i : ℕ)
      → IsValid s
      → i < s.space
      → key_at (double word pointer s) i ≡ key_at s i
  unfolding double
  double-key s i v h =
      get_or-append_left s.dense (tabulate word s.space s.space) i 0 (omega (arith, v.dense_length))

  double-index :
      (s : SdSet A) (i : ℕ)
      → IsValid s
      → i < s.space
      → index_at (double word pointer s) i ≡ index_at s i
  unfolding double
  double-index s i v h =
      get_or-append_left s.sparse (tabulate word s.space s.space) i 0
        (omega (arith, v.sparse_length))

  double-value :
      (s : SdSet A) (i : ℕ)
      → IsValid s
      → i < s.space
      → value_at (double word pointer s) i ≡ value_at s i
  unfolding double
  double-value s i v h =
      get_or-append_left s.values (tabulate pointer s.space s.space) i none
        (omega (arith, v.values_length))

  double-lengths :
      (s : SdSet A)
      → IsValid s
      → (length (double word pointer s).dense ≡ s.space * 2)
        × (length (double word pointer s).sparse ≡ s.space * 2)
        × (length (double word pointer s).values ≡ s.space * 2)
  unfolding double
  double-lengths s v = (
    omega (
      arith,
      length-append s.dense (tabulate word s.space s.space),
      length-tabulate word s.space s.space,
      v.dense_length,
    ),
    omega (
      arith,
      length-append s.sparse (tabulate word s.space s.space),
      length-tabulate word s.space s.space,
      v.sparse_length,
    ),
    omega (
      arith,
      length-append s.values (tabulate pointer s.space s.space),
      length-tabulate pointer s.space s.space,
      v.values_length,
    ),
  )

  double-sizes :
      (s : SdSet A)
      → ((double word pointer s).size ≡ s.size) × ((double word pointer s).space ≡ s.space * 2)
  unfolding double
  double-sizes s = (refl, refl)

  double-IsValid : (s : SdSet A) → IsValid s → IsValid (double word pointer s)
  double-IsValid s v =
      let (size_same, space_twice) = double-sizes s in
      let (dense_long, sparse_long, values_long) = double-lengths s v in
      record {
        dense_length = dense_long ∙ sym space_twice;
        sparse_length = sparse_long ∙ sym space_twice;
        values_length = values_long ∙ sym space_twice;
        positive = omega (arith, v.positive, space_twice);
        keys = λ i h. omega (
          arith,
          double-key s i v (omega (arith, size_le s v, size_same)),
          v.keys i (omega (arith, size_same)),
          space_twice,
        );
        back = λ i h.
            ap (index_at (double word pointer s))
              (double-key s i v (omega (arith, size_le s v, size_same)))
            ∙ double-index s (key_at s i) v (v.keys i (omega (arith, size_same)))
            ∙ v.back i (omega (arith, size_same));
      }

  double-Grown : (s : SdSet A) → IsValid s → Grown s (double word pointer s)
  double-Grown s v =
      let (size_same, space_twice) = double-sizes s in
      record {
        valid = double-IsValid s v;
        same_size = size_same;
        more = omega (arith, space_twice);
        kept = λ k h.
            ground
              (arith, size_same, double-index s k v h, double-key s (index_at s k) v, size_le s v);
        same_value = λ k h. double-value s k v h;
        unset = λ k h.
            let index = index_at (double word pointer s) k in
            ground (arith, size_same, double-key s index v, size_le s v, v.keys index);
      }

  -- Enough rounds for the key.
  pub grow-Grown :
      (fuel key : ℕ) (s : SdSet A)
      → IsValid s
      → key < s.space + fuel
      → Grown s (grow word pointer fuel key s) × (key < (grow word pointer fuel key s).space)
  unfolding grow
  grow-Grown zero key s v h = (Grown-refl s v, omega arith)
  grow-Grown (suc fuel) key s v h = elim (Bool-cases (leb s.space key)) [
    | inl over ↦
        (let (grown, room) =
            grow-Grown fuel key (double word pointer s) (double-IsValid s v)
              (omega (arith, (double-sizes s).1, v.positive)) in
          rw over (Grown-trans s (double word pointer s) _ (double-Grown s v) grown, room))
    | inr under ↦ rw under (Grown-refl s v, ground arith)
  ]
