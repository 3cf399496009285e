-- ===== src/ChunkyFile/Write.antt =====
-- chunkyfile_set_chunk and chunkyfile_all_chunks_written.
use seven_deadly_syns.Prelude.{
  ℕ, zero, suc, ◌+◌, ◌*◌, ◌≤◌, ◌<◌, ◌≡◌, ◌↔◌, refl, Bool, true, false, List, [], ◌∷◌, ◌++◌, some,
  take, drop, length, arith, Bool-cases, inl, inr, set, get_or, lt→ltb,
}
use native.Mathlib.Decide.{ℕ_discrete}
use seven_deadly_syns.ChunkyFile.{
  ChunkyFile, chunk_size, num_chunks, copy_to, set_chunk, written_from, all_chunks_written,
}

copy_to_zero :
    (dest bs : List ℕ)
    → length bs ≤ length dest
    → copy_to dest 0 bs ≡ some (bs ++ drop (length bs) dest)
unfolding copy_to
copy_to_zero dest [] h = refl
copy_to_zero [] (b ∷ bs) h = absurd (omega arith)
copy_to_zero (x ∷ xs) (b ∷ bs) h = rw (copy_to_zero xs bs (omega arith))

-- memcpy inside the data replaces those bytes and no others.
copy_to_lem :
    (n : ℕ) (dest bs : List ℕ)
    → n + length bs ≤ length dest
    → copy_to dest n bs ≡ some (take n dest ++ (bs ++ drop (length bs) (drop n dest)))
unfolding copy_to
copy_to_lem zero dest bs h = copy_to_zero dest bs (omega arith)
copy_to_lem (suc n) [] bs h = absurd (omega arith)
copy_to_lem (suc n) (x ∷ xs) bs h = rw (copy_to_lem n xs bs (omega arith))

-- chunkyfile_set_chunk with a chunk that lies inside the file puts it at its place, changes no
-- other byte and marks that chunk, and no other, as written.
pub set_chunk_lem :
    (cf : ChunkyFile) (num : ℕ) (chunk : List ℕ)
    → num < length cf.chunks_written
    → num * chunk_size + length chunk ≤ length cf.contents
    → set_chunk cf num chunk
      ≡ some (record cf {
        contents =
            take (num * chunk_size) cf.contents
            ++ (chunk ++ drop (length chunk) (drop (num * chunk_size) cf.contents));
        chunks_written = set cf.chunks_written num true;
      })
unfolding set_chunk
set_chunk_lem cf num chunk h room =
    rw (lt→ltb _ _ h) (rw (copy_to_lem (num * chunk_size) cf.contents chunk room, set_chunk))

written_from_iff :
    (flags : List Bool) (n i : ℕ)
    → (written_from flags n i ≡ true) ↔ ((k : ℕ) → i ≤ k → k < i + n → get_or flags k false ≡ true)
unfolding written_from
written_from_iff flags zero i = (λ h k lo hi. absurd (omega arith), λ h. refl)
written_from_iff flags (suc n) i = elim (Bool-cases (get_or flags i false)) [
  | inl hit ↦ (
    λ h k lo hi. elim (ℕ_discrete k i) [
      | yes e ↦ rw e hit
      | no ne ↦ (written_from_iff flags n (i + 1)).0 (ground arith) k (omega arith) (omega arith)
    ],
    λ h. rw hit ((written_from_iff flags n (i + 1)).1 (λ k lo hi. h k (omega arith) (omega arith))),
  )
  | inr miss ↦ (λ h k lo hi. ground arith, λ h. let at_i = h i (omega arith) (omega arith) in cc)
]

-- chunkyfile_all_chunks_written says whether every chunk is marked.
all_chunks_written_iff :
    (cf : ChunkyFile)
    → (all_chunks_written cf ≡ true)
      ↔ ((k : ℕ) → k < num_chunks cf → get_or cf.chunks_written k false ≡ true)
unfolding all_chunks_written
all_chunks_written_iff cf = (
  λ h k lt.
      (written_from_iff cf.chunks_written (num_chunks cf) 0).0 h k (omega arith) (omega arith),
  λ h. (written_from_iff cf.chunks_written (num_chunks cf) 0).1 (λ k lo hi. h k (omega arith)),
)
