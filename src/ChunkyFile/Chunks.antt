-- ===== src/ChunkyFile/Chunks.antt =====
-- The chunks of a file: their number, their sizes, and what they cover.
use mathlib.Core.List.{append-nil}
use seven_deadly_syns.Prelude.{
  ℕ, zero, suc, ◌+◌, ◌-◌, ◌*◌, ◌/◌, ◌%◌, ◌≤◌, ◌≡◌, ◌⊎◌, ◌≢◌, sym, ap, ap₂, ◌∙◌, ◌==◌, if◌then◌else◌,
  List, [], ◌++◌, take, drop, length, arith, Bool-cases, inl, inr, take-add, drop-drop, take_all,
}
use native.Mathlib.Decide.{ℕ_discrete}
use seven_deadly_syns.ChunkyFile.{
  bytes_at, ChunkyFile, chunk_size, num_chunks_for_size, num_chunks, get_chunk_size, get_chunk,
}

-- num_chunks_for_size is the least number of chunks of full size that hold so many bytes.
num_chunks_for_size_lem :
    (size : ℕ)
    → (size ≤ num_chunks_for_size size * chunk_size)
      × ((k : ℕ) → size ≤ k * chunk_size → num_chunks_for_size size ≤ k)
unfolding num_chunks_for_size
num_chunks_for_size_lem size = (ground arith, λ k h. ground arith)

-- The chunks that chunkyfile_get_chunk gives for `n` numbers from `i` on, one after the other.
pub chunks_from : ChunkyFile → ℕ → ℕ → List ℕ
chunks_from cf zero i = []
chunks_from cf (suc n) i = get_chunk cf i ++ chunks_from cf n (i + 1)

bytes_at-add :
    (xs : List ℕ) (i m n : ℕ) → bytes_at xs i (m + n) ≡ bytes_at xs i m ++ bytes_at xs (i + m) n
unfolding bytes_at
bytes_at-add xs i m n =
    take-add m n (drop i xs) ∙ ap (λ ys. take m (drop i xs) ++ take n ys) (drop-drop i m xs)

bytes_at_all : (xs : List ℕ) (n : ℕ) → length xs ≤ n → bytes_at xs 0 n ≡ xs
unfolding bytes_at
bytes_at_all xs n h = take_all n xs h

get_chunk_size-full :
    (cf : ChunkyFile) (i : ℕ) → i + 1 ≢ num_chunks cf → get_chunk_size cf i ≡ chunk_size
unfolding get_chunk_size
get_chunk_size-full cf i ne = ground arith

get_chunk_size-last :
    (cf : ChunkyFile) (i : ℕ) → i + 1 ≡ num_chunks cf → get_chunk_size cf i ≡ cf.size % chunk_size
unfolding get_chunk_size
get_chunk_size-last cf i e = ground arith

chunks_from_lem :
    (cf : ChunkyFile) (n i : ℕ)
    → i + suc n ≡ num_chunks cf
    → chunks_from cf (suc n) i
      ≡ bytes_at cf.contents (i * chunk_size) (n * chunk_size + cf.size % chunk_size)
unfolding chunks_from get_chunk
chunks_from_lem cf zero i e =
    append-nil (get_chunk cf i)
    ∙ ap (bytes_at cf.contents (i * chunk_size))
        (get_chunk_size-last cf i (omega arith) ∙ omega arith)
chunks_from_lem cf (suc n) i e =
    ap₂ ◌++◌ (ap (bytes_at cf.contents (i * chunk_size)) (get_chunk_size-full cf i (omega arith))) (
      chunks_from_lem cf n (i + 1) (omega arith)
      ∙ ap (λ k. bytes_at cf.contents k (n * chunk_size + cf.size % chunk_size)) (omega arith))
    ∙ sym (
        bytes_at-add cf.contents (i * chunk_size) chunk_size
          (n * chunk_size + cf.size % chunk_size))
    ∙ ap (bytes_at cf.contents (i * chunk_size)) (omega arith)

num_chunks_cases :
    (cf : ChunkyFile)
    → ((num_chunks cf ≡ 0) × (cf.size ≡ 0))
      ⊎ ((n : ℕ) × (num_chunks cf ≡ suc n)
          × (n * chunk_size + cf.size % chunk_size
              ≡ (if cf.size % chunk_size == 0 then cf.size - chunk_size else cf.size)))
unfolding num_chunks num_chunks_for_size
num_chunks_cases cf = elim (Bool-cases (cf.size % chunk_size == 0)) [
  | inl whole ↦ elim (ℕ_discrete (cf.size / chunk_size) 0) [
    | yes e ↦ inl (ground arith, ground arith)
    | no ne ↦ inr (cf.size / chunk_size - 1, ground arith, ground arith)
  ]
  | inr part ↦ inr (cf.size / chunk_size, ground arith, ground arith)
]

no_chunks : (cf : ChunkyFile) (n : ℕ) → n ≡ 0 → chunks_from cf 0 0 ≡ bytes_at cf.contents 0 n
unfolding chunks_from bytes_at
no_chunks cf n e = rw e

chunks_size :
    (cf : ChunkyFile)
    → chunks_from cf (num_chunks cf) 0
      ≡ bytes_at cf.contents 0 (if cf.size % chunk_size == 0 then cf.size - chunk_size else cf.size)
chunks_size cf = elim (num_chunks_cases cf) [
  | inl (none_at_all, empty) ↦
      ap (λ k. chunks_from cf k 0) none_at_all ∙ no_chunks cf _ (ground arith)
  | inr (n, e, size) ↦
      ap (λ k. chunks_from cf k 0) e
      ∙ chunks_from_lem cf n 0 (omega arith)
      ∙ ap (λ k. bytes_at cf.contents k (n * chunk_size + cf.size % chunk_size)) (omega arith)
      ∙ ap (bytes_at cf.contents 0) size
]

-- All the chunks that chunkyfile_get_chunk gives make up the file, which has as many bytes as its
-- size says, unless that is a multiple of the chunk size: then the last chunk has size 0, and the last `chunk_size` bytes are missing.
pub chunks_cover :
    (cf : ChunkyFile)
    → length cf.contents ≡ cf.size
    → chunks_from cf (num_chunks cf) 0 ≡ (
        if cf.size % chunk_size == 0
        then bytes_at cf.contents 0 (cf.size - chunk_size)
        else cf.contents)
chunks_cover cf h = elim (Bool-cases (cf.size % chunk_size == 0)) [
  | inl whole ↦ rw whole (chunks_size cf ∙ ap (bytes_at cf.contents 0) (ground arith))
  | inr part ↦ rw part (
      chunks_size cf
      ∙ ap (bytes_at cf.contents 0) (ground arith)
      ∙ bytes_at_all cf.contents cf.size (omega arith))
]
