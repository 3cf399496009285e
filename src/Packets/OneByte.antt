-- ===== src/Packets/OneByte.antt =====
-- A socket that gives one byte at a time, for the examples.
use seven_deadly_syns.Prelude.{ℕ, zero, suc, ◌≤◌, ◌<◌, ◌≡◌, List, [], ◌∷◌, ◌++◌, length, arith}
use seven_deadly_syns.Packets.{Received, closed, gives, Recv}

unfoldable one_byte : List ℕ → ℕ → Received × List ℕ
one_byte s zero = (closed, s)
one_byte [] (suc n) = (closed, [])
one_byte (b ∷ bs) (suc n) = (gives (b ∷ []), bs)

unfoldable one_byte-gives :
    (s s' : List ℕ) (n : ℕ) (bs : List ℕ)
    → one_byte s n ≡ (gives bs, s')
    → (0 < length bs) × (length bs ≤ n) × (s ≡ bs ++ s')
unfolding one_byte
one_byte-gives s s' zero bs e = cc
one_byte-gives [] s' (suc n) bs e = cc
one_byte-gives (b ∷ rest) s' (suc n) bs e = ground (arith, e)

unfoldable pub byte_socket : Recv (List ℕ)
unfolding one_byte one_byte-gives
byte_socket = record { recv = one_byte; still = λ s. s; recv-gives = one_byte-gives }
