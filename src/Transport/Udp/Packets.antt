-- ===== src/Transport/Udp/Packets.antt =====
-- What becomes of one datagram.
use aerocast.Prelude.{
  ℕ, ◌+◌, ◌%◌, ◌^◌, ◌≤◌, ◌≡◌, refl, false, List, [], ◌∷◌, ◌++◌, length, Option, none, some, ltb,
  if◌then◌else◌, arith, drop, take, ◌>>=◌, append-nil, length-append, drop-append, drop-drop,
  take-append, length-drop, drop_all, take_all, length-take,
}
use aerocast.Prelude.Int.{pos, ltb_ℤ}
use aerocast.Binary.Codec.{CoordPacket, ok, decode_coord_in_place, put_at, encode_coord}
use aerocast.Binary.Codec.Laws.{
  coord_bytes, IsCoord, length-coord_bytes, encode_coord_lem, decode_coord_in_place-coord_bytes,
  put_at-append,
}
use aerocast.Binary.LittleEndian.{
  get_bytes, put_bytes, slice, IsU32, get_bytes_field, length-put_bytes,
}
use aerocast.Transport.Udp.{
  Listener, IngressPacket, process_packet, identify, enqueue, too_short, blank,
}

-- What cmd/loadtest writes into its buffer: the id in the first four bytes, then the coordinates.
pub datagram : List ℕ → ℕ → CoordPacket → Option (List ℕ)
datagram buf id coord = do
  buf' ← put_at 0 (put_bytes 4 id) buf
  coords ← encode_coord (drop 4 buf') coord
  some (take 4 buf' ++ coords)

abbrev pub datagram_bytes : ℕ → CoordPacket → List ℕ
datagram_bytes id coord = put_bytes 4 id ++ coord_bytes coord

pub datagram_lem :
    (buf : List ℕ) (id : ℕ) (coord : CoordPacket)
    → length buf ≡ 20
    → datagram buf id coord ≡ some (datagram_bytes id coord)
unfolding datagram
datagram_lem buf id coord h =
    rw (put_at-append [] (put_bytes 4 id) buf 0 4 refl (length-put_bytes 4 id) (omega arith)) (
      rw (
        drop-append 4 (put_bytes 4 id) (drop 4 buf) (length-put_bytes 4 id),
        take-append 4 (put_bytes 4 id) (drop 4 buf) (length-put_bytes 4 id),
        encode_coord_lem (drop 4 buf) coord (omega (arith, length-drop 4 buf)),
        drop-drop 16 4 buf,
        drop_all 20 buf (omega arith),
        append-nil (coord_bytes coord),
      ))

pub length-datagram_bytes : (id : ℕ) (coord : CoordPacket) → length (datagram_bytes id coord) ≡ 20
length-datagram_bytes id coord = omega (
  arith,
  length-append (put_bytes 4 id) (coord_bytes coord),
  length-put_bytes 4 id,
  length-coord_bytes coord,
)

-- Decoding a long enough slice gives some packet.
decode_long :
    (bytes : List ℕ) (dst : CoordPacket)
    → 16 ≤ length bytes
    → (pkt : CoordPacket) × (decode_coord_in_place bytes dst ≡ ok pkt)
unfolding decode_coord_in_place
decode_long bytes dst h =
    (record { lng = get_bytes (slice 0 8 bytes); lat = get_bytes (slice 8 16 bytes) }, ground arith)

identify-datagram :
    (l : Listener) (id : ℕ) (coord pkt : CoordPacket) (now : ℕ)
    → IsU32 id
    → IsCoord coord
    → identify l (datagram_bytes id coord) pkt now
      ≡ (enqueue l (record { entity_id = id; coord = coord; timestamp = now }), none)
unfolding identify
identify-datagram l id coord pkt now hid hc = ground (
  arith,
  length-datagram_bytes id coord,
  drop-append 4 (put_bytes 4 id) (coord_bytes coord) (length-put_bytes 4 id),
  take_all 16 (coord_bytes coord) (omega (arith, length-coord_bytes coord)),
  append-nil (coord_bytes coord),
  decode_coord_in_place-coord_bytes coord pkt [] hc,
  get_bytes_field [] (coord_bytes coord) 4 id 0 4 hid refl refl,
)

-- The listener after a packet has come: it waits behind the others, or it is counted as dropped.
abbrev pub arrived : Listener → IngressPacket → Listener
arrived l ip =
    if ltb (length l.out) l.capacity
    then record l { out = l.out ++ (ip ∷ []) }
    else record l { dropped_packets = (l.dropped_packets + 1) % 2 ^ 64 }

-- A packet that a sender writes arrives as it was sent: processPacket of the twenty bytes puts the same
-- id and the same coordinates into the channel, or counts one dropped packet if the channel is full. The
-- id has 32 bits, the coordinates 64 each, and the configured packet size is 20 or less.
pub process_packet-datagram :
    (l : Listener) (buf : List ℕ) (id : ℕ) (coord : CoordPacket) (now : ℕ)
    → length buf ≡ 20
    → IsU32 id
    → IsCoord coord
    → ltb_ℤ (pos 20) l.cfg.packet_size ≡ false
    → (bytes : List ℕ) × (datagram buf id coord ≡ some bytes)
      × (process_packet l bytes now
          ≡ (arrived l (record { entity_id = id; coord = coord; timestamp = now }), none))
unfolding process_packet enqueue
process_packet-datagram l buf id coord now h hid hc fits =
    let (pkt, first) =
      decode_long (datagram_bytes id coord) blank (omega (arith, length-datagram_bytes id coord)) in
    (
      datagram_bytes id coord,
      datagram_lem buf id coord h,
      rw (length-datagram_bytes id coord, fits, first)
          (identify-datagram l id coord pkt now hid hc),
    )

-- processPacket with the packet size of the default configuration, on any bytes: below 16 of them it refuses
-- the packet and changes nothing; with 16 to 19 it takes the first 16 as the coordinates of the entity 0;
-- with 20 or more the first four are the id and the next 16 the coordinates, whatever follows.
pub process_packet_lengths :
    (l : Listener) (bytes : List ℕ) (now : ℕ)
    → l.cfg.packet_size ≡ pos 16
    → process_packet l bytes now ≡ (
        if ltb (length bytes) 16
        then (l, some too_short)
        else if ltb (length bytes) 20
        then (
          arrived l (record {
            entity_id = 0;
            coord = record {
              lng = get_bytes (slice 0 8 bytes);
              lat = get_bytes (slice 8 16 bytes);
            };
            timestamp = now;
          }),
          none,
        )
        else (
          arrived l (record {
            entity_id = get_bytes (slice 0 4 bytes);
            coord = record {
              lng = get_bytes (slice 0 8 (slice 4 20 bytes));
              lat = get_bytes (slice 8 16 (slice 4 20 bytes));
            };
            timestamp = now;
          }),
          none,
        ))
unfolding process_packet identify enqueue decode_coord_in_place
process_packet_lengths l bytes now size =
    rw size (ground (arith, length-take 16 (drop 4 bytes), length-drop 4 bytes))
