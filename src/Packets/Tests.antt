-- ===== src/Packets/Tests.antt =====
-- safe_recv on a socket that gives one byte at a time.
use seven_deadly_syns.Prelude.{ℕ, ◌≡◌, refl, some, List, [], ◌∷◌}
use seven_deadly_syns.Packets.{Outcome, safe_recv, IsOutcome, safe_recv_lem}
use seven_deadly_syns.Packets.OneByte.{byte_socket}

safe_recv_lem_example :
    (o : Outcome) × (s' : List ℕ) × (safe_recv byte_socket 4 (5 ∷ 6 ∷ 7 ∷ 8 ∷ []) 3 ≡ some (o, s'))
    × IsOutcome byte_socket (5 ∷ 6 ∷ 7 ∷ 8 ∷ []) s' 3 o
safe_recv_lem_example = safe_recv_lem byte_socket (5 ∷ 6 ∷ 7 ∷ 8 ∷ []) 3

all_three :
    safe_recv byte_socket 4 (5 ∷ 6 ∷ 7 ∷ 8 ∷ []) 3 ≡ some (Outcome.filled (5 ∷ 6 ∷ 7 ∷ []), 8 ∷ [])
unfolding safe_recv byte_socket
all_three = refl
