-- ===== src/Clients/Loadtest.antt =====
-- cmd/loadtest/main.go: a sender's loop, a reading client and the reporter's loop. A random number is
-- looked up by its place; the answer of each write is an argument.
use aerocast.Prelude.{
  ◌>>=◌, ℕ, ◌+◌, ◌-◌, ◌%◌, ◌^◌, ◌<◌, ◌≡◌, ◌∙◌, refl, Bool, true, false, List, [], ◌∷◌, ◌++◌, map,
  All, length, Option, some, arith, if◌then◌else◌, append_assoc, append-nil, sym,
}
use aerocast.Binary.Codec.{CoordPacket}
use aerocast.Float
use aerocast.Transport.Udp.Packets.{datagram, datagram_bytes, datagram_lem, length-datagram_bytes}

-- What one turn of a sender asks of math/rand: rand.Intn of the number of entities, and two floats.
pub record Draw : Type 0 where
  pub intn : ℕ
  pub lat : ℕ
  pub lng : ℕ

abbrev pub id_of : Draw → ℕ
id_of d = (d.intn + 1) % 2 ^ 32

abbrev pub coord_of : Draw → CoordPacket
coord_of d = record {
  lng = Float.sub (Float.mul d.lng (Float.of_ℕ 360)) (Float.of_ℕ 180);
  lat = Float.sub (Float.mul d.lat (Float.of_ℕ 180)) (Float.of_ℕ 90);
}

-- A sender: its buffer, the datagrams that it has handed to its connection, and the shared counter.
pub record Sender : Type 0 where
  pub buf : List ℕ
  pub written : List (List ℕ)
  pub sent : ℕ

-- One turn, with the answer of conn.Write. A slice out of range is a panic.
unfoldable pub send_turn : Sender → Draw → Bool → Option Sender
send_turn s d ok = do
  packet ← datagram s.buf (id_of d) (coord_of d)
  some (record {
    buf = packet;
    written = s.written ++ packet ∷ [];
    sent = if ok then (s.sent + 1) % 2 ^ 64 else s.sent;
  })

unfoldable pub send_loop : Sender → List (Draw × Bool) → Option Sender
send_loop s [] = some s
send_loop s (turn ∷ turns) = do s' ← send_turn s turn.0 turn.1; send_loop s' turns

-- A client counts the messages that it reads until its connection fails.
unfoldable pub read_loop : ℕ → List Bool → ℕ
read_loop received [] = received
read_loop received (arrives ∷ reads) =
    let rest = read_loop ((received + 1) % 2 ^ 64) reads in if arrives then rest else received

-- The reporter: for the values of the two counters at each tick, the two rates that it prints.
unfoldable pub report_loop : ℕ → ℕ → List (ℕ × ℕ) → List (ℕ × ℕ)
report_loop last_sent last_received [] = []
report_loop last_sent last_received ((sent, received) ∷ ticks) =
    ((sent + 2 ^ 64 - last_sent) % 2 ^ 64, (received + 2 ^ 64 - last_received) % 2 ^ 64)
    ∷ report_loop sent received ticks

abbrev pub sum : List ℕ → ℕ
sum [] = 0
sum (x ∷ xs) = x + sum xs

abbrev pub last_or : ℕ → List ℕ → ℕ
last_or x [] = x
last_or x (y ∷ ys) = last_or y ys

-- The number of true answers.
abbrev pub passed : List (Draw × Bool) → ℕ
passed [] = 0
passed ((d, ok) ∷ turns) = (if ok then 1 else 0) + passed turns

-- The rates that are printed add up to the last reading, less the first, modulo 2 ^ 64.
pub report_loop_total :
    (sent received : ℕ) (ticks : List (ℕ × ℕ))
    → sent < 2 ^ 64
    → All (λ t. t.0 < 2 ^ 64) ticks
    → (sum (map (λ r. r.0) (report_loop sent received ticks)) + sent) % 2 ^ 64
      ≡ last_or sent (map (λ t. t.0) ticks) % 2 ^ 64
unfolding report_loop
report_loop_total sent received [] small fits = omega arith
report_loop_total sent received ((now, got) ∷ ticks) small (fit, fits) =
    omega (arith, small, report_loop_total now got ticks fit fits)

-- A sender with a buffer of 20 bytes hands its connection one datagram for each turn, of the drawn
-- entity and position, and counts those that are written.
pub send_loop-datagram_bytes :
    (s : Sender) (turns : List (Draw × Bool))
    → length s.buf ≡ 20
    → s.sent < 2 ^ 64
    → (s' : Sender) × (send_loop s turns ≡ some s')
      × (s'.written ≡ s.written ++ map (λ t. datagram_bytes (id_of t.0) (coord_of t.0)) turns)
      × (s'.sent ≡ (s.sent + passed turns) % 2 ^ 64)
unfolding send_loop send_turn
send_loop-datagram_bytes s [] room small = (s, refl, sym (append-nil s.written), omega arith)
send_loop-datagram_bytes s ((d, ok) ∷ turns) room small =
    let packet : List ℕ = datagram_bytes (id_of d) (coord_of d) in
    let s1 : Sender = record {
      buf = packet;
      written = s.written ++ packet ∷ [];
      sent = if ok then (s.sent + 1) % 2 ^ 64 else s.sent;
    } in
    let (s', run, written, sent) =
      send_loop-datagram_bytes s1 turns (length-datagram_bytes (id_of d) (coord_of d))
        (ground (arith, small)) in
    (
      s',
      rw (datagram_lem s.buf (id_of d) (coord_of d) room) run,
      written
          ∙ append_assoc s.written (packet ∷ [])
              (map (λ t. datagram_bytes (id_of t.0) (coord_of t.0)) turns),
      counted ok s.sent (passed turns) s'.sent sent,
    )
  where
    counted :
        (ok : Bool) (n k m : ℕ)
        → m ≡ ((if ok then (n + 1) % 2 ^ 64 else n) + k) % 2 ^ 64
        → m ≡ (n + ((if ok then 1 else 0) + k)) % 2 ^ 64
    counted true n k m h = omega (arith, h)
    counted false n k m h = omega (arith, h)
