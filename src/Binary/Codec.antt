-- ===== src/Binary/Codec.antt =====
-- pkg/binary/codec.go, coord.go and wire.go: coordinate packets.
pub mod Laws
pub mod Extended
use aerocast.Prelude.{
  ◌>>=◌, ℕ, zero, suc, ◌+◌, ◌-◌, ◌*◌, ◌/◌, ◌%◌, ◌^◌, ◌≤◌, ◌<◌, ◌≡◌, refl, Bool, List, [], ◌∷◌, ◌++◌,
  length, take, drop, Option, none, some, ltb, leb, ◌==◌, if◌then◌else◌,
}
use aerocast.Binary.LittleEndian.{get_bytes, put_bytes, slice}

abbrev pub coord_packet_size : ℕ
coord_packet_size = 16

abbrev pub extended_packet_size : ℕ
extended_packet_size = 32

pub data Error : Type 0 where
  packet_too_short packet_wrong_size sub_frame_too_short unknown_opcode : Error

-- Go's (value, error) pair.
pub data Result {ℓ} (A : Type ℓ) : Type ℓ where
  ok : A → Result A
  err : Error → Result A

pub record CoordPacket : Type 0 where
  pub lng : ℕ
  pub lat : ℕ

pub record ExtendedPacket : Type 0 where
  pub version : ℕ
  pub lng : ℕ
  pub lat : ℕ
  pub bearing : ℕ
  pub speed : ℕ
  pub entity_id : ℕ

-- `recycled` is the packet that the pool handed out.
unfoldable pub decode_coord_in_place : List ℕ → CoordPacket → Result CoordPacket
decode_coord_in_place bytes dst =
    if ltb (length bytes) coord_packet_size
    then err packet_too_short
    else ok (record dst { lng = get_bytes (slice 0 8 bytes); lat = get_bytes (slice 8 16 bytes) })

unfoldable pub decode_coord : List ℕ → CoordPacket → Result CoordPacket
decode_coord bytes recycled =
    if ltb (length bytes) coord_packet_size
    then err packet_too_short
    else ok
        (record recycled { lng = get_bytes (slice 0 8 bytes); lat = get_bytes (slice 8 16 bytes) })

-- PutUint64(dst[off:off+8], v); `none` is the panic on a slice that is too short.
unfoldable pub put_at : ℕ → List ℕ → List ℕ → Option (List ℕ)
put_at off bs dst =
    if leb (off + length bs) (length dst)
    then some (take off dst ++ (bs ++ drop (off + length bs) dst))
    else none

unfoldable pub encode_coord : List ℕ → CoordPacket → Option (List ℕ)
encode_coord dst pkt = do
  dst' ← put_at 0 (put_bytes 8 pkt.lng) dst
  put_at 8 (put_bytes 8 pkt.lat) dst'

-- The code writes every field of the recycled packet but `EntityID`.
unfoldable pub decode_extended : List ℕ → ExtendedPacket → Result ExtendedPacket
decode_extended bytes recycled =
    if ltb (length bytes) extended_packet_size
    then err packet_too_short
    else ok (record recycled {
      version = get_bytes (slice 0 1 bytes);
      lng = get_bytes (slice 8 16 bytes);
      lat = get_bytes (slice 16 24 bytes);
      bearing = get_bytes (slice 24 28 bytes);
      speed = get_bytes (slice 28 32 bytes);
    })

-- The two pointers and the error that DecodePacket returns.
pub record Decoded : Type 0 where
  pub coord : Option CoordPacket
  pub ext : Option ExtendedPacket
  pub error : Option Error

abbrev of_coord : Result CoordPacket → Decoded
of_coord (ok c) = record { coord = some c; ext = none; error = none }
of_coord (err e) = record { coord = none; ext = none; error = some e }

abbrev of_extended : Result ExtendedPacket → Decoded
of_extended (ok x) = record { coord = none; ext = some x; error = none }
of_extended (err e) = record { coord = none; ext = none; error = some e }

unfoldable pub decode_packet : List ℕ → CoordPacket → ExtendedPacket → Decoded
decode_packet bytes coord ext =
    if length bytes == coord_packet_size
    then of_coord (decode_coord bytes coord)
    else if length bytes == extended_packet_size
    then of_extended (decode_extended bytes ext)
    else record { coord = none; ext = none; error = some packet_wrong_size }
