-- ===== src/Clients/Benchmark/Datagrams.antt =====
-- What a worker of examples/benchmark_compare sends to aerocast.
use aerocast.Prelude.{
  ℕ, suc, ◌+◌, ◌-◌, ◌%◌, ◌^◌, ◌<◌, ◌≤◌, ◌≡◌, ◌∙◌, refl, sym, ap, Bool, true, false, List, [], ◌∷◌,
  ◌++◌, map, length, some, append_assoc, append-nil, get_or, arith, drop, drop-drop, drop_all,
  length-append, length-drop,
}
use aerocast.Binary.Codec.{CoordPacket}
use aerocast.Binary.Codec.Laws.{put_at-append}
use aerocast.Binary.LittleEndian.{put_bytes, length-put_bytes}
use aerocast.Transport.Udp.Packets.{datagram, datagram_bytes, datagram_lem, length-datagram_bytes}
use aerocast.Clients.Benchmark.{Point, Blast, pregen_size, blast_loop, operate, count, build_packet}
use aerocast.Clients.Benchmark.Blasted.{no_point, turns, fresh, get_elem?-get_or}

abbrev pub coord_of : Point → CoordPacket
coord_of pt = record { lng = pt.lng; lat = pt.lat }

build_packet_lem :
    (buf : List ℕ) (pt : Point)
    → length buf ≡ 20
    → build_packet buf pt ≡ some (datagram_bytes pt.id (coord_of pt))
unfolding build_packet
build_packet_lem buf pt h =
    let i : List ℕ = put_bytes 4 pt.id in
    let g : List ℕ = put_bytes 8 pt.lng in
    let t : List ℕ = put_bytes 8 pt.lat in
    rw (put_at-append [] i buf 0 4 refl (length-put_bytes 4 pt.id) (omega arith)) (
      rw
        (
          put_at-append i g (drop 4 buf) 4 8 (length-put_bytes 4 pt.id) (length-put_bytes 8 pt.lng)
              (omega (arith, length-drop 4 buf)),
          drop-drop 8 4 buf,
        )
        (rw
          (
            sym (append_assoc i g (drop 12 buf)),
            put_at-append (i ++ g) t (drop 12 buf) 12 8
                (omega
                  (arith, length-append i g, length-put_bytes 4 pt.id, length-put_bytes 8 pt.lng))
                (length-put_bytes 8 pt.lat) (omega (arith, length-drop 12 buf)),
            drop-drop 8 12 buf,
            drop_all 20 buf (omega arith),
          )
          (simp (append_assoc, append-nil))))

-- How many turns a worker makes with these answers of conn.Write, and how many of them succeed.
abbrev pub attempts : List Bool → ℕ
attempts [] = 0
attempts (true ∷ answers) = suc (attempts answers)
attempts (false ∷ answers) = 1

abbrev pub successes : List Bool → ℕ
successes [] = 0
successes (true ∷ answers) = suc (successes answers)
successes (false ∷ answers) = 0

-- A worker's end: what it had, and so many turns more.
record Sent (pts : List Point) (answers : List Bool) (b b' : Blast) : Type 0 where
  pub datagrams :
      b'.datagrams
      ≡ b.datagrams
        ++ map (λ pt. datagram_bytes pt.id (coord_of pt)) (turns pts (attempts answers) b.idx)
  pub ops_sent : b'.ops_sent ≡ (b.ops_sent + successes answers) % 2 ^ 64
  pub ops_fail : b'.ops_fail ≡ (b.ops_fail + (attempts answers - successes answers)) % 2 ^ 64
  pub stream : b'.stream ≡ b.stream

blast_loop-Sent :
    (format : ℕ → List ℕ) (pts : List Point) (answers : List Bool) (b : Blast)
    → length pts ≡ pregen_size
    → length b.buf ≡ 20
    → b.ops_sent < 2 ^ 64
    → b.ops_fail < 2 ^ 64
    → (b' : Blast) × (blast_loop format "aerocast" pts answers b ≡ some b') × Sent pts answers b b'
unfolding blast_loop operate count
blast_loop-Sent format pts [] b full room sent fail = (
  b,
  refl,
  record {
    datagrams = sym (append-nil b.datagrams);
    ops_sent = omega arith;
    ops_fail = omega arith;
    stream = refl;
  },
)
blast_loop-Sent format pts (false ∷ answers) b full room sent fail =
    let pt : Point = get_or pts (b.idx % pregen_size) no_point in
    let packet : List ℕ = datagram_bytes pt.id (coord_of pt) in
    (
      record b {
        idx = b.idx + 1;
        buf = packet;
        datagrams = b.datagrams ++ packet ∷ [];
        ops_fail = (b.ops_fail + 1) % 2 ^ 64;
      },
      rw
          (
            get_elem?-get_or pts (b.idx % pregen_size) no_point (omega arith),
            build_packet_lem b.buf pt room,
          )
          refl,
      record { datagrams = refl; ops_sent = omega arith; ops_fail = refl; stream = refl },
    )
blast_loop-Sent format pts (true ∷ answers) b full room sent fail =
    let pt : Point = get_or pts (b.idx % pregen_size) no_point in
    let packet : List ℕ = datagram_bytes pt.id (coord_of pt) in
    let b1 : Blast = record b {
      idx = b.idx + 1;
      buf = packet;
      datagrams = b.datagrams ++ packet ∷ [];
      ops_sent = (b.ops_sent + 1) % 2 ^ 64;
    } in
    let (b', run, rest) =
      blast_loop-Sent format pts answers b1 full (length-datagram_bytes pt.id (coord_of pt))
        (omega arith) fail in
    (
      b',
      rw
          (
            get_elem?-get_or pts (b.idx % pregen_size) no_point (omega arith),
            build_packet_lem b.buf pt room,
          )
          run,
      record {
        datagrams =
            rest.datagrams
            ∙ append_assoc b.datagrams (packet ∷ []) (
                map (λ q. datagram_bytes q.id (coord_of q))
                  (turns pts (attempts answers) (b.idx + 1)));
        ops_sent = omega (arith, rest.ops_sent);
        ops_fail = omega (arith, rest.ops_fail);
        stream = rest.stream;
      },
    )

-- A worker for aerocast with a buffer of 20 bytes sends, about the points from its index on, round and
-- round, one datagram for each turn, the one that the load test writes for the same entity and
-- position. It stops at the first write that fails, and counts the writes before it as sent and that
-- one as failed.
pub blast_loop-datagram :
    (format : ℕ → List ℕ) (pts : List Point) (answers : List Bool) (idx : ℕ) (buf : List ℕ)
    → length pts ≡ pregen_size
    → length buf ≡ 20
    → (b : Blast) × (blast_loop format "aerocast" pts answers (fresh idx buf) ≡ some b)
      × (map some b.datagrams
          ≡ map (λ pt. datagram buf pt.id (coord_of pt)) (turns pts (attempts answers) idx))
      × (b.ops_sent ≡ successes answers % 2 ^ 64)
      × (b.ops_fail ≡ attempts answers - successes answers)
blast_loop-datagram format pts answers idx buf full room =
    let (b, run, sent) =
      blast_loop-Sent format pts answers (fresh idx buf) full room (omega arith) (omega arith) in
    (
      b,
      run,
      ap (map some) sent.datagrams ∙ as_loadtest (turns pts (attempts answers) idx),
      sent.ops_sent ∙ omega arith,
      sent.ops_fail ∙ omega (arith, one_failure answers),
    )
  where
    as_loadtest :
        (ps : List Point)
        → map some (map (λ pt. datagram_bytes pt.id (coord_of pt)) ps)
          ≡ map (λ pt. datagram buf pt.id (coord_of pt)) ps
    as_loadtest [] = refl
    as_loadtest (pt ∷ ps) = rw (datagram_lem buf pt.id (coord_of pt) room, as_loadtest ps) refl

    one_failure : (rs : List Bool) → attempts rs - successes rs ≤ 1
    one_failure [] = omega arith
    one_failure (true ∷ rs) = omega (arith, one_failure rs)
    one_failure (false ∷ rs) = omega arith
