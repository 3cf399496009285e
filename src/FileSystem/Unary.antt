-- ===== src/FileSystem/Unary.antt =====
-- A printer and a scanner for the numbers of a file, for the examples.
use mathlib.Core.List.{append_assoc}
use seven_deadly_syns.Prelude.{
  ℕ, zero, suc, ◌+◌, ◌≡◌, ◌≢◌, refl, ap, ◌∙◌, Bool, true, false, ◌==◌, if◌then◌else◌, Option, none,
  some, List, [], ◌∷◌, ◌++◌, length, length-append, length-replicate, replicate, arith,
}
use seven_deadly_syns.FileSystem.Serial.{Stats, Stdio, NoNull}

-- Numbers in unary between blanks: a printer and a scanner that keep the laws.
unary : List ℕ → ℕ → Option (ℕ × List ℕ)
unary [] n = none
unary (b ∷ bs) n =
    let more = unary bs (n + 1) in
    if b == b'1' then more else if b == b' ' then some (n, bs) else none

unary-replicate :
    (k n : ℕ) (rest : List ℕ) → unary (replicate k b'1' ++ (b' ' ∷ rest)) n ≡ some (n + k, rest)
unfolding unary
unary-replicate zero n rest = ap (λ m. some (m, rest)) (omega arith)
unary-replicate (suc k) n rest =
    unary-replicate k (n + 1) rest ∙ ap (λ m. some (m, rest)) (omega arith)

abbrev flag : Bool → ℕ
flag true = b'1'
flag false = b'0'

print_stats : Stats → List ℕ
print_stats s =
    replicate s.size b'1'
    ++ (b' ' ∷ (replicate s.last_modified b'1' ++ (b' ' ∷ flag s.is_folder ∷ [])))

finish : ℕ → ℕ → List ℕ → Option (Stats × ℕ)
finish n m [] = none
finish n m (b ∷ bs) =
    some (record { size = n; last_modified = m; is_folder = b == b'1' }, n + m + 3)

scan_stats : List ℕ → Option (Stats × ℕ)
unfolding unary finish
scan_stats bs = elim (unary bs 0) [
  | none ↦ none
  | some (n, rest) ↦ elim (unary rest 0) [ none ↦ none | some (m, last) ↦ finish n m last ]
]

replicate-NoNull : (k : ℕ) (rest : List ℕ) → NoNull rest → NoNull (replicate k b'1' ++ rest)
replicate-NoNull zero rest h = h
replicate-NoNull (suc k) rest h = (omega arith, replicate-NoNull k rest h)

print_stats-NoNull : (s : Stats) → NoNull (print_stats s)
unfolding print_stats
print_stats-NoNull s =
    replicate-NoNull s.size _
      (omega arith, replicate-NoNull s.last_modified _ (omega arith, (flag_pos s.is_folder, tt)))
  where
    flag_pos : (b : Bool) → flag b ≢ 0
    flag_pos true = omega arith
    flag_pos false = omega arith

length-print_stats : (s : Stats) → length (print_stats s) ≡ s.size + s.last_modified + 3
unfolding print_stats
length-print_stats s = omega (
  arith,
  length-append (replicate s.size b'1')
      (b' ' ∷ (replicate s.last_modified b'1' ++ (b' ' ∷ flag s.is_folder ∷ []))),
  length-append (replicate s.last_modified b'1') (b' ' ∷ flag s.is_folder ∷ []),
  length-replicate {A = ℕ} s.size b'1',
  length-replicate {A = ℕ} s.last_modified b'1',
)

flag_read : (b : Bool) → (flag b == b'1') ≡ b
flag_read true = refl
flag_read false = refl

finished :
    (s : Stats) (rest : List ℕ)
    → finish (0 + s.size) (0 + s.last_modified) (flag s.is_folder ∷ 0 ∷ rest)
      ≡ some (s, length (print_stats s))
unfolding finish
finished s rest = ground (arith, flag_read s.is_folder, length-print_stats s)

scan_stats-print_stats :
    (s : Stats) (rest : List ℕ)
    → scan_stats (print_stats s ++ (0 ∷ rest)) ≡ some (s, length (print_stats s))
unfolding scan_stats print_stats
scan_stats-print_stats s rest =
    ap scan_stats regroup
    ∙ rw (unary-replicate s.size 0 (replicate s.last_modified b'1' ++ last), scan_stats)
        (rw (unary-replicate s.last_modified 0 (flag s.is_folder ∷ 0 ∷ rest), scan_stats)
          (finished s rest))
  where
    last : List ℕ
    last = b' ' ∷ flag s.is_folder ∷ 0 ∷ rest

    regroup :
        print_stats s ++ (0 ∷ rest)
        ≡ replicate s.size b'1' ++ (b' ' ∷ (replicate s.last_modified b'1' ++ last))
    regroup =
        append_assoc (replicate s.size b'1') _ (0 ∷ rest)
        ∙ ap (λ xs. replicate s.size b'1' ++ (b' ' ∷ xs))
            (append_assoc (replicate s.last_modified b'1') _ (0 ∷ rest))

pub unary_io : Stdio
unary_io = record {
  sprintf = print_stats;
  sscanf = scan_stats;
  sprintf_NoNull = print_stats-NoNull;
  sscanf-sprintf = scan_stats-print_stats;
}
