-- ===== src/Binary/Codec/Extended.antt =====
-- Extended packets, and the choice of a format by the length of the packet.
use aerocast.Prelude.{ℕ, ◌≡◌, ◌≢◌, ◌⊎◌, List, length, none, some, arith}
use aerocast.Binary.Codec.{
  CoordPacket, ExtendedPacket, ok, packet_wrong_size, decode_coord, decode_extended, decode_packet,
}

-- decode_packet takes exactly the lengths 16 and 32. At 16 it returns a coordinate packet, at 32 an
-- extended packet, and at every other length ErrPacketWrongSize and neither packet; it never returns
-- a packet with an error.
pub decode_packet_cases :
    (bytes : List ℕ) (coord : CoordPacket) (ext : ExtendedPacket)
    → ((length bytes ≡ 16)
        × ((c : CoordPacket) × (decode_coord bytes coord ≡ ok c)
            × (decode_packet bytes coord ext
                ≡ record { coord = some c; ext = none; error = none })))
      ⊎ ((length bytes ≡ 32)
          × ((x : ExtendedPacket) × (decode_extended bytes ext ≡ ok x)
              × (decode_packet bytes coord ext
                  ≡ record { coord = none; ext = some x; error = none })))
      ⊎ ((length bytes ≢ 16)
          × (length bytes ≢ 32)
          × (decode_packet bytes coord ext
              ≡ record { coord = none; ext = none; error = some packet_wrong_size }))
unfolding decode_packet decode_coord decode_extended
decode_packet_cases bytes coord ext = ground arith

-- An extended packet never gets its entity from the wire: whatever the bytes hold, a decoded packet
-- has the entity of the packet that the pool handed out.
pub decode_extended_stale :
    (bytes : List ℕ) (recycled x : ExtendedPacket)
    → decode_extended bytes recycled ≡ ok x
    → x.entity_id ≡ recycled.entity_id
unfolding decode_extended
decode_extended_stale bytes recycled x e = ground arith
