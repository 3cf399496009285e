-- ===== src/Network/Frames.antt =====
-- A packet, received in whatever parts recv gives.
use mathlib.Core.List.{append_assoc}
use seven_deadly_syns.Prelude.{
  ℕ, suc, ◌<◌, ◌≡◌, refl, sym, ap, ap₂, ◌∙◌, ◌⊎◌, inl, inr, true, Option, some, List, [], ◌∷◌, ◌++◌,
  length, take, drop, get_or, arith,
}
use seven_deadly_syns.PeerTable.Codec.{int_bytes, read_int}
use seven_deadly_syns.PeerTable.Copy.{read_int-int_bytes}
use seven_deadly_syns.Packets.{
  Recv, closed, failed, Outcome, ended, broken, filled, safe_recv, safe_recv_lem, IsOutcome,
}
use seven_deadly_syns.Network.{packet, is_positive, Arrival, gone, arrived, recv_body, recv_packet}

pub append-cancel :
    (xs ys us vs : List ℕ) → xs ++ us ≡ ys ++ vs → length xs ≡ length ys → (xs ≡ ys) × (us ≡ vs)
append-cancel [] [] us vs e h = (refl, e)
append-cancel [] (y ∷ ys) us vs e h = absurd (omega (arith, h))
append-cancel (x ∷ xs) [] us vs e h = absurd (omega (arith, h))
append-cancel (x ∷ xs) (y ∷ ys) us vs e h =
    let (tails, rest) = append-cancel xs ys us vs (ap (drop 1) e) (omega (arith, h)) in
    (ap₂ ◌∷◌ (ap (λ l. get_or l 0 0) e) tails, rest)

pub length-int_bytes : (n : ℕ) → length (int_bytes n) ≡ 4
unfolding int_bytes
length-int_bytes n = omega arith

module _ {Socket : Type 0} (io : Recv Socket) where
  -- A call of recv has ended with 0 or -1.
  pub record Lost (s' : Socket) : Type 0 where
    pub before : Socket
    pub asked : ℕ
    pub result : (io.recv before asked ≡ (closed, s')) ⊎ (io.recv before asked ≡ (failed, s'))

  abbrev pub IsArrival : ℕ → List ℕ → List ℕ → Socket → Arrival → Type 0
  IsArrival type body rest s' gone = Lost s'
  IsArrival type body rest s' (arrived t buf) = (t ≡ type) × (buf ≡ body) × (io.still s' ≡ rest)

  abbrev Comes : ℕ → List ℕ → List ℕ → Option (Arrival × Socket) → Type 0
  Comes type body rest r =
      (a : Arrival) × (s' : Socket) × (r ≡ some (a, s')) × IsArrival type body rest s' a

  is_positive-small : (n : ℕ) → n < 2147483647 → is_positive (suc n) ≡ true
  unfolding is_positive
  is_positive-small n h = ground (arith, h)

  recv_body-Comes :
      (s : Socket) (type : ℕ) (body rest : List ℕ)
      → length body < 2147483648
      → io.still s ≡ body ++ rest
      → Comes type body rest (recv_body io s type (length body))
  unfolding recv_body
  recv_body-Comes s type [] rest h stream =
      (arrived type [], s, unfold is_positive in refl, (refl, refl, stream))
  recv_body-Comes s type (b ∷ bs) rest h stream =
      let (o, s', runs, outcome) = safe_recv_lem io s (suc (length bs)) in
      by_outcome o s' runs outcome
    where
      by_outcome :
          (o : Outcome) (s' : Socket)
          → safe_recv io (suc (suc (length bs))) s (suc (length bs)) ≡ some (o, s')
          → IsOutcome io s s' (suc (length bs)) o
          → Comes type (b ∷ bs) rest (recv_body io s type (suc (length bs)))
      by_outcome ended s' runs w = (
        gone,
        s',
        rw (is_positive-small (length bs) (omega (arith, h)), recv_body)
            (rw (runs, recv_body) refl),
        record { before = w.before; asked = _; result = inl w.result },
      )
      by_outcome broken s' runs w = (
        gone,
        s',
        rw (is_positive-small (length bs) (omega (arith, h)), recv_body)
            (rw (runs, recv_body) refl),
        record { before = w.before; asked = _; result = inr w.result },
      )
      by_outcome (filled buf) s' runs w =
          let (same, left) = append-cancel buf (b ∷ bs) (io.still s') rest (sym w.1 ∙ stream) w.0 in
          (
            arrived type buf,
            s',
            rw (is_positive-small (length bs) (omega (arith, h)), recv_body)
                (rw (runs, recv_body) refl),
            (refl, same, left),
          )

  -- A packet that stands at the start of the stream of a socket, however recv cuts it: the receiving
  -- code gives its type and its data and leaves the stream behind it, or a call of recv gave 0 or -1.
  -- The type and the length are those of an int that is not negative.
  pub recv_packet_lem :
      (s : Socket) (type : ℕ) (body rest : List ℕ)
      → type < 2147483648
      → length body < 2147483648
      → io.still s ≡ packet type body ++ rest
      → (a : Arrival) × (s' : Socket) × (recv_packet io s ≡ some (a, s'))
        × IsArrival type body rest s' a
  unfolding recv_packet packet
  recv_packet_lem s type body rest ht hb stream =
      let (o, s', runs, outcome) = safe_recv_lem io s 8 in by_header o s' runs outcome
    where
      by_header :
          (o : Outcome) (s' : Socket)
          → safe_recv io 9 s 8 ≡ some (o, s')
          → IsOutcome io s s' 8 o
          → Comes type body rest (recv_packet io s)
      by_header ended s' runs w = (
        gone,
        s',
        rw (runs, recv_packet) refl,
        record { before = w.before; asked = _; result = inl w.result },
      )
      by_header broken s' runs w = (
        gone,
        s',
        rw (runs, recv_packet) refl,
        record { before = w.before; asked = _; result = inr w.result },
      )
      by_header (filled pkt) s' runs w =
          let header = int_bytes type ++ int_bytes (length body) in
          let regroup : packet type body ++ rest ≡ header ++ (body ++ rest) =
            ap (λ l. l ++ rest) (sym (append_assoc (int_bytes type) (int_bytes (length body)) body))
            ∙ append_assoc header body rest in
          let (same, left) =
            append-cancel pkt header (io.still s') (body ++ rest) (sym w.1 ∙ stream ∙ regroup)
              (w.0 ∙ sym (eight type (length body))) in
          let t : read_int (take 4 pkt) ≡ type =
            ap (λ p. read_int (take 4 p)) same
            ∙ at_type type (length body)
            ∙ read_int-int_bytes type (omega (arith, ht)) in
          let n : read_int (drop 4 pkt) ≡ length body =
            ap (λ p. read_int (drop 4 p)) same
            ∙ at_length type (length body)
            ∙ read_int-int_bytes (length body) (omega (arith, hb)) in
          let (a, s'', gives, arrival) = recv_body-Comes s' type body rest hb left in
          let switch : recv_packet io s
              ≡ recv_body io s' (read_int (take 4 pkt)) (read_int (drop 4 pkt)) =
            rw (runs, recv_packet) refl in
          (a, s'', switch ∙ ap₂ (recv_body io s') t n ∙ gives, arrival)
        where
          eight : (m n : ℕ) → length (int_bytes m ++ int_bytes n) ≡ 8
          eight m n = unfold int_bytes in omega arith

          at_type :
              (m n : ℕ) → read_int (take 4 (int_bytes m ++ int_bytes n)) ≡ read_int (int_bytes m)
          at_type m n = unfold int_bytes in refl

          at_length :
              (m n : ℕ) → read_int (drop 4 (int_bytes m ++ int_bytes n)) ≡ read_int (int_bytes n)
          at_length m n = unfold int_bytes in refl
