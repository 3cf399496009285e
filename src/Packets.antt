-- ===== src/Packets.antt =====
-- common/packets.c: safe_recv, which calls recv until the whole buffer is filled. recv and the state of
-- the socket are a parameter.
pub mod OneByte
mod Tests
use mathlib.Core.List.{append-nil, append_assoc}
use seven_deadly_syns.Prelude.{
  ℕ, zero, suc, ◌+◌, ◌-◌, ◌≤◌, ◌<◌, ◌≡◌, refl, sym, ap, ◌∙◌, Bool, true, false, ltb, Option, none,
  some, List, [], ◌∷◌, ◌++◌, length, length-append, arith, Bool-cases, inl, inr,
}

-- What recv gives: 0, -1, or the number of the bytes that it put into the buffer.
pub data Received : Type 0 where
  closed : Received
  failed : Received
  gives : List ℕ → Received

-- recv on the states of a socket. Of the bytes that are still to come it gives some, at least one and at
-- most as many as it is asked for.
pub record Recv (Socket : Type 0) : Type 0 where
  pub recv : Socket → ℕ → Received × Socket
  pub still : Socket → List ℕ
  pub recv-gives :
      (s s' : Socket) (n : ℕ) (bs : List ℕ)
      → recv s n ≡ (gives bs, s')
      → (0 < length bs) × (length bs ≤ n) × (still s ≡ bs ++ still s')

-- The result of safe_recv: 0, -1, or the length, with the content of the buffer.
pub data Outcome : Type 0 where
  ended : Outcome
  broken : Outcome
  filled : List ℕ → Outcome

module _ {Socket : Type 0} (io : Recv Socket) where
  -- The loop, with the bytes that are in the buffer, whose number is `i`. `none`: the fuel does not
  -- suffice.
  unfoldable pub recv_from : ℕ → Socket → List ℕ → ℕ → Option (Outcome × Socket)
  recv_from zero s cbuf n = none
  recv_from (suc fuel) s cbuf n = elim (ltb (length cbuf) n) [
    | false ↦ some (filled cbuf, s)
    | true ↦
        let (ret, s') = io.recv s (n - length cbuf) in
        elim ret [
          | closed ↦ some (ended, s')
          | failed ↦ some (broken, s')
          | gives bs ↦ recv_from fuel s' (cbuf ++ bs) n
        ]
  ]

  unfoldable pub safe_recv : ℕ → Socket → ℕ → Option (Outcome × Socket)
  unfolding recv_from
  safe_recv fuel s n = recv_from fuel s [] n

  -- The state in which a call of recv came to `ret`, before the buffer was filled.
  pub record Stops (s s' : Socket) (n : ℕ) (ret : Received) : Type 0 where
    pub got : List ℕ
    pub before : Socket
    pub stream : io.still s ≡ got ++ io.still before
    pub short : length got < n
    pub result : io.recv before (n - length got) ≡ (ret, s')

  -- What an outcome says.
  abbrev pub IsOutcome : Socket → Socket → ℕ → Outcome → Type 0
  IsOutcome s s' n ended = Stops s s' n closed
  IsOutcome s s' n broken = Stops s s' n failed
  IsOutcome s s' n (filled bs) = (length bs ≡ n) × (io.still s ≡ bs ++ io.still s')

  abbrev Comes : Socket → ℕ → Option (Outcome × Socket) → Type 0
  Comes s n r = (o : Outcome) × (s' : Socket) × (r ≡ some (o, s')) × IsOutcome s s' n o

  recv_from-Comes :
      (fuel : ℕ) (s0 s : Socket) (cbuf : List ℕ) (n : ℕ)
      → io.still s0 ≡ cbuf ++ io.still s
      → length cbuf ≤ n
      → n < fuel + length cbuf
      → Comes s0 n (recv_from fuel s cbuf n)
  unfolding recv_from
  recv_from-Comes zero s0 s cbuf n stream room enough = absurd (omega arith)
  recv_from-Comes (suc fuel) s0 s cbuf n stream room enough =
      elim (Bool-cases (ltb (length cbuf) n)) [
        | inr full ↦
            (filled cbuf, s, rw (full, recv_from) refl, (ground (arith, full, room), stream))
        | inl short ↦
            by_result (λ s1 buf. recv_from-Comes fuel s0 s1 buf n) ((io.recv s (n - length cbuf)).0)
              ((io.recv s (n - length cbuf)).1) refl short
      ]
    where
      by_result :
          ((s1 : Socket) (buf : List ℕ)
            → io.still s0 ≡ buf ++ io.still s1
            → length buf ≤ n
            → n < fuel + length buf
            → Comes s0 n (recv_from fuel s1 buf n))
          → (ret : Received) (s' : Socket) → io.recv s (n - length cbuf) ≡ (ret, s')
          → ltb (length cbuf) n ≡ true
          → Comes s0 n (recv_from (suc fuel) s cbuf n)
      by_result later closed s' e short = (
        ended,
        s',
        ground (arith, short, e),
        record {
          got = cbuf;
          before = s;
          stream = stream;
          short = ground (arith, short);
          result = e;
        },
      )
      by_result later failed s' e short = (
        broken,
        s',
        ground (arith, short, e),
        record {
          got = cbuf;
          before = s;
          stream = stream;
          short = ground (arith, short);
          result = e;
        },
      )
      by_result later (gives bs) s' e short =
          let (some_bytes, at_most, next) = io.recv-gives s s' (n - length cbuf) bs e in
          let (o, s'', runs, outcome) =
            later s' (cbuf ++ bs)
              (stream ∙ ap (◌++◌ cbuf) next ∙ sym (append_assoc cbuf bs (io.still s')))
              (omega (arith, length-append cbuf bs, at_most, room))
              (omega (arith, length-append cbuf bs, some_bytes, enough)) in
          let again : recv_from (suc fuel) s cbuf n ≡ recv_from fuel s' (cbuf ++ bs) n =
            ground (arith, short, e) in
          (o, s'', again ∙ runs, outcome)

  -- safe_recv returns after at most as many calls of recv as the length: either the length, with the
  -- buffer filled by exactly that many bytes, the next ones of the stream in their order; or 0 or -1,
  -- when a call of recv gives this before the buffer is full.
  pub safe_recv_lem :
      (s : Socket) (n : ℕ)
      → (o : Outcome) × (s' : Socket) × (safe_recv (suc n) s n ≡ some (o, s')) × IsOutcome s s' n o
  unfolding safe_recv
  safe_recv_lem s n = recv_from-Comes (suc n) s s [] n refl (omega arith) (omega arith)
