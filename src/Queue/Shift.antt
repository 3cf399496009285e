-- ===== src/Queue/Shift.antt =====
-- The shifts of queue_remove: which element each position holds after them.
use native.Mathlib.Nat.{add-mod_right}
use seven_deadly_syns.Prelude.{
  ℕ, zero, suc, ◌+◌, ◌-◌, ◌%◌, ◌≤◌, ◌<◌, ◌≡◌, refl, sym, ap, ◌∙◌, if◌then◌else◌, ltb, leb, ◌&&◌,
  Ptr, length, length-set, arith,
}
use seven_deadly_syns.Queue.{Queue, slot, write, shift_left_from, shift_right}
use seven_deadly_syns.Queue.Contents.{cell, IsValid, cell-write_self, cell-write_ne}

module _ {A : Type 0} where
  -- Only the array differs, and its length does not.
  pub record Frame (q r : Queue A) : Type 0 where
    pub same_length : r.length ≡ q.length
    pub same_space : r.space ≡ q.space
    pub same_head : r.head ≡ q.head
    pub same_tail : r.tail ≡ q.tail
    pub same_size : length r.elements ≡ length q.elements

  write-Frame : (q : Queue A) (k : ℕ) (e : Ptr A) → Frame q (write q k e)
  write-Frame q k e = record {
    same_length = refl;
    same_space = refl;
    same_head = refl;
    same_tail = refl;
    same_size = length-set q.elements k e;
  }

  Frame-refl : (q : Queue A) → Frame q q
  Frame-refl q = record {
    same_length = refl;
    same_space = refl;
    same_head = refl;
    same_tail = refl;
    same_size = refl;
  }

  Frame-trans : {q r s : Queue A} → Frame q r → Frame r s → Frame q s
  Frame-trans f g = record {
    same_length = g.same_length ∙ f.same_length;
    same_space = g.same_space ∙ f.same_space;
    same_head = g.same_head ∙ f.same_head;
    same_tail = g.same_tail ∙ f.same_tail;
    same_size = g.same_size ∙ f.same_size;
  }

  pub Frame-IsValid : {q r : Queue A} → Frame q r → IsValid q → IsValid r
  Frame-IsValid f v = record {
    allocated = f.same_size ∙ v.allocated ∙ sym f.same_space;
    tail_in = omega (arith, f.same_tail, f.same_space, v.tail_in);
    fits = omega (arith, f.same_length, f.same_space, v.fits);
    head_at = ground (arith, f.same_head, f.same_space, f.same_tail, f.same_length, v.head_at);
  }

  pub shift_left_from-Frame : (n i : ℕ) (q : Queue A) → Frame q (shift_left_from n i q)
  unfolding shift_left_from
  shift_left_from-Frame zero i q = Frame-refl q
  shift_left_from-Frame (suc n) i q =
      Frame-trans (write-Frame q _ _) (shift_left_from-Frame n (i + 1) _)

  pub shift_right-Frame : (n : ℕ) (q : Queue A) → Frame q (shift_right q n)
  unfolding shift_right
  shift_right-Frame zero q = Frame-refl q
  shift_right-Frame (suc i) q = Frame-trans (write-Frame q _ _) (shift_right-Frame i _)

  -- The slot that queue_shiftleft writes for index `i` is that of the position before.
  slot_before :
      (q : Queue A)
      → IsValid q
      → (i : ℕ) → 0 < i
      → (i + q.tail + q.space - 1) % q.space ≡ slot q (i - 1)
  slot_before q v i h =
      ap (λ k. k % q.space) (omega (arith, v.tail_in)) ∙ add-mod_right (i - 1 + q.tail) q.space

  pub cell-shift_left_from :
      (n i j : ℕ) (q : Queue A)
      → IsValid q
      → 0 < i
      → i + n ≤ q.length
      → j < q.length
      → cell (shift_left_from n i q) j
        ≡ (if leb i (j + 1) && ltb (j + 1) (i + n) then cell q (j + 1) else cell q j)
  unfolding shift_left_from
  cell-shift_left_from zero i j q v h b l = ground arith
  cell-shift_left_from (suc n) i j q v h b l =
      ap (λ k. cell (shift_left_from n (i + 1) (write q k (cell q i))) j) (slot_before q v i h)
      ∙ ground (
        arith,
        cell-shift_left_from n (i + 1) j next
            (Frame-IsValid (write-Frame q (slot q (i - 1)) (cell q i)) v),
        cell-write_self v (i - 1) (cell q i),
        cell-write_ne v (i - 1) j (cell q i),
        cell-write_ne v (i - 1) (j + 1) (cell q i),
        v.fits,
      )
    where
      next : Queue A
      next = write q (slot q (i - 1)) (cell q i)

  pub cell-shift_right :
      (n j : ℕ) (q : Queue A)
      → IsValid q
      → n < q.space
      → j < q.space
      → cell (shift_right q n) j ≡ (if ltb 0 j && leb j n then cell q (j - 1) else cell q j)
  unfolding shift_right
  cell-shift_right zero j q v b l = ground arith
  cell-shift_right (suc i) j q v b l = ground (
    arith,
    cell-shift_right i j (write q (slot q (i + 1)) (cell q i))
        (Frame-IsValid (write-Frame q (slot q (i + 1)) (cell q i)) v),
    cell-write_self v (i + 1) (cell q i),
    cell-write_ne v (i + 1) j (cell q i),
    cell-write_ne v (i + 1) (j - 1) (cell q i),
  )
