-- ===== src/SdSet/Pigeon.antt =====
-- The pigeonhole principle for two functions on numbers that are inverse below a bound.
use seven_deadly_syns.Prelude.{
  ℕ, zero, suc, ◌<◌, ◌≤◌, ◌≡◌, ap, ◌==◌, ltb, ◌&&◌, if◌then◌else◌, arith, Bool-cases, inl, inr,
}

abbrev swapped : ℕ → ℕ → (ℕ → ℕ) → ℕ → ℕ
swapped j last f i = if i == j then f last else f i

abbrev renamed : ℕ → ℕ → (ℕ → ℕ) → ℕ → ℕ
renamed j last g k = if g k == last then j else g k

pub pigeon :
    (n m : ℕ) (f g : ℕ → ℕ) → ((i : ℕ) → i < m → f i < n) → ((i : ℕ) → i < m → g (f i) ≡ i) → m ≤ n
pigeon zero zero f g below back = omega arith
pigeon zero (suc m) f g below back = absurd (omega (arith, below 0 (omega arith)))
pigeon (suc n) zero f g below back = omega arith
pigeon (suc n) (suc m) f g below back = elim (Bool-cases (ltb (g n) (suc m) && (f (g n) == n))) [
  | inl hit ↦
      let rest =
        pigeon n m (swapped (g n) m f) (renamed (g n) m g)
          (λ i h. ground (arith, below i, back i, below m, back m))
          (λ i h. ground (arith, below i, back i, below m, back m)) in
      omega (arith, rest)
  | inr miss ↦
      let rest = pigeon n (suc m) f g (λ i h. ground (arith, below i, back i, ap g)) back in
      omega (arith, rest)
]
