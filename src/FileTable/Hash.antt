-- ===== src/FileTable/Hash.antt =====
-- utility/FileTable/FileTable.c: hashPJW. The sum is taken modulo 2 ^ 32; a char from 128 on is
-- negative.
use Prim.Native.Nat.{bit_xor}
use seven_deadly_syns.Prelude.{
  ℕ, zero, suc, ◌+◌, ◌*◌, ◌/◌, ◌%◌, ◌<◌, ◌≡◌, refl, ap₂, Bool, true, ◌&&◌, ◌==◌, ltb, if◌then◌else◌,
  List, [], ◌∷◌, arith,
}

-- `*p` as an unsigned int.
unfoldable pub char_value : ℕ → ℕ
char_value c = if ltb c 128 then c else c + 4294967040

-- One round of the loop. `g` is the topmost hexadecimal digit of `h` in its place, so `h ^ g` clears it,
-- and `g >> 24` changes the lowest byte only.
unfoldable pub round : ℕ → ℕ → ℕ
unfolding char_value
round h c =
    let sum = (h * 16 + char_value c) % 4294967296 in
    let digit = sum / 268435456 in
    let low = sum % 268435456 in
    if digit == 0 then sum else low / 256 * 256 + bit_xor (low % 256) (digit * 16)

unfoldable pub hash_from : ℕ → List ℕ → ℕ
unfolding round
hash_from h [] = h
hash_from h (c ∷ cs) = hash_from (round h c) cs

unfoldable pub hash_pjw : List ℕ → ℕ
unfolding hash_from
hash_pjw s = hash_from 0 s

all_below : ℕ → (ℕ → Bool) → Bool
all_below zero p = true
all_below (suc n) p = p n && all_below n p

all_below-at : (n : ℕ) (p : ℕ → Bool) (k : ℕ) → all_below n p ≡ true → k < n → p k ≡ true
unfolding all_below
all_below-at zero p k h lt = absurd (omega arith)
all_below-at (suc n) p k h lt = ground (arith, all_below-at n p k)

byte_table : all_below 4096 (λ k. ltb (bit_xor (k % 256) (k / 256 * 16)) 256) ≡ true
unfolding all_below
byte_table = refl

byte_xor : (b d : ℕ) → b < 256 → d < 16 → bit_xor b (d * 16) < 256
byte_xor b d hb hd =
    let at =
      all_below-at 4096 (λ k. ltb (bit_xor (k % 256) (k / 256 * 16)) 256) (d * 256 + b) byte_table
        (omega arith) in
    let low : (d * 256 + b) % 256 ≡ b = omega arith in
    let high : (d * 256 + b) / 256 ≡ d = omega arith in
    ground (arith, at, ap₂ (λ x y. bit_xor x (y * 16)) low high)

round-below : (h c : ℕ) → round h c < 268435456
unfolding round
round-below h c =
    let sum = (h * 16 + char_value c) % 4294967296 in
    ground (arith, byte_xor (sum % 268435456 % 256) (sum / 268435456))

-- hashPJW never gives a negative int: its value is below 2 ^ 28.
pub hash_pjw-below : (s : List ℕ) → hash_pjw s < 268435456
unfolding hash_pjw
hash_pjw-below s = from 0 s (omega arith)
  where
    from : (h : ℕ) (cs : List ℕ) → h < 268435456 → hash_from h cs < 268435456
    from h [] lt = unfold hash_from in lt
    from h (c ∷ cs) lt = unfold hash_from in from (round h c) cs (round-below h c)
