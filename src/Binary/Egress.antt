-- ===== src/Binary/Egress.antt =====
-- pkg/binary/egress.go: the buffer of 20-byte records that a subscriber is sent.
pub mod Laws
use aerocast.Prelude.{
  ℕ, zero, suc, ◌+◌, ◌-◌, ◌*◌, ◌/◌, ◌%◌, ◌≤◌, ◌<◌, ◌≡◌, Bool, List, [], ◌∷◌, ◌++◌, length, take,
  drop, Option, none, some, ltb, leb, ◌==◌, if◌then◌else◌,
}
use aerocast.Binary.LittleEndian.{get_bytes, put_bytes, slice}
use aerocast.Binary.Codec.{Result, ok, err, packet_wrong_size}

abbrev pub egress_record_size : ℕ
egress_record_size = 20

pub record EgressRecord : Type 0 where
  pub entity_id : ℕ
  pub lat : ℕ
  pub lng : ℕ

-- `bytes` is the slice `data`, and `cap` its capacity.
pub record EgressBuffer : Type 0 where
  pub bytes : List ℕ
  pub n : ℕ
  pub cap : ℕ

-- What the pool makes when it holds nothing.
abbrev pub new_buffer : EgressBuffer
new_buffer = record { bytes = []; n = 0; cap = 4096 }

-- GetEgressBuffer, on the buffer that the pool hands out.
unfoldable pub get_egress_buffer : EgressBuffer → EgressBuffer
get_egress_buffer buf = record buf { n = 0; bytes = [] }

unfoldable pub reset : EgressBuffer → EgressBuffer
reset b = record b { n = 0; bytes = [] }

-- The three fields fill the twenty bytes by which the slice grew.
unfoldable pub record_bytes : EgressRecord → List ℕ
record_bytes r = put_bytes 4 r.entity_id ++ (put_bytes 8 r.lat ++ put_bytes 8 r.lng)

-- A full buffer is copied to one of twice the capacity. `none` is the panic of
-- make([]byte, off+20, cap*2) where the length passes the capacity.
unfoldable pub append : EgressBuffer → EgressRecord → Option EgressBuffer
append b r =
    let off : ℕ = length b.bytes in
    let b' : EgressBuffer = record b { bytes = b.bytes ++ record_bytes r; n = b.n + 1 } in
    if ltb b.cap (off + egress_record_size)
    then if leb (off + egress_record_size) (b.cap * 2)
      then some (record b' { cap = b.cap * 2 })
      else none
    else some b'

unfoldable pub append_all : EgressBuffer → List EgressRecord → Option EgressBuffer
append_all b [] = some b
append_all b (r ∷ rs) = elim (append b r) [ none ↦ none | some b' ↦ append_all b' rs ]

unfoldable pub bytes_of : EgressBuffer → List ℕ
bytes_of b = b.bytes

unfoldable pub len : EgressBuffer → ℕ
len b = b.n

-- The loop body of DecodeEgressFrame for the record at `off`.
record_at : ℕ → List ℕ → EgressRecord
record_at off bytes = record {
  entity_id = get_bytes (slice off (off + 4) bytes);
  lat = get_bytes (slice (off + 4) (off + 12) bytes);
  lng = get_bytes (slice (off + 12) (off + 20) bytes);
}

-- The rounds left, and the index of the next record.
decode_loop : ℕ → ℕ → List ℕ → List EgressRecord
decode_loop zero i bytes = []
decode_loop (suc rounds) i bytes =
    record_at (i * egress_record_size) bytes ∷ decode_loop rounds (i + 1) bytes

unfoldable pub decode_egress_frame : List ℕ → Result (List EgressRecord)
unfolding decode_loop record_at
decode_egress_frame bytes =
    if length bytes % egress_record_size == 0
    then ok (decode_loop (length bytes / egress_record_size) 0 bytes)
    else err packet_wrong_size
