-- ===== src/Binary/Subscription.antt =====
-- pkg/binary/subscription.go and wire.go: frames by which a client subscribes and follows.
pub mod Laws
use aerocast.Prelude.{
  ◌>>=◌, ℕ, zero, suc, ◌+◌, ◌-◌, ◌≤◌, ◌<◌, ◌≡◌, Bool, true, false, ◌||◌, List, [], ◌∷◌, ◌++◌,
  length, take, drop, replicate, get_or, Option, none, some, ltb, leb, ◌==◌, if◌then◌else◌,
}
use aerocast.Binary.LittleEndian.{get_bytes, put_bytes, slice}
use aerocast.Binary.Codec.{Result, ok, err, sub_frame_too_short, unknown_opcode, put_at}

abbrev pub sub_frame_size : ℕ
sub_frame_size = 17

abbrev pub op_subscribe : ℕ
op_subscribe = 0x01

abbrev pub op_unsubscribe : ℕ
op_unsubscribe = 0x02

abbrev pub op_follow : ℕ
op_follow = 0x03

abbrev pub op_unfollow : ℕ
op_unfollow = 0x04

abbrev pub op_ping : ℕ
op_ping = 0xff

pub record SubFrame : Type 0 where
  pub opcode : ℕ
  pub center_lat : ℕ
  pub center_lng : ℕ
  pub radius_m : ℕ
  pub has_radius : Bool
  pub entity_id : ℕ

-- SubFrame{Opcode: op}
abbrev pub blank : ℕ → SubFrame
blank op = record {
  opcode = op;
  center_lat = 0;
  center_lng = 0;
  radius_m = 0;
  has_radius = false;
  entity_id = 0;
}

-- The case of OpSubscribe and OpUnsubscribe.
decode_area : List ℕ → SubFrame → Result SubFrame
decode_area bytes f =
    if ltb (length bytes) sub_frame_size
    then err sub_frame_too_short
    else let g : SubFrame = record f {
      center_lng = get_bytes (slice 1 9 bytes);
      center_lat = get_bytes (slice 9 17 bytes);
    } in
      if leb 25 (length bytes)
      then ok (record g { radius_m = get_bytes (slice 17 25 bytes); has_radius = true })
      else ok g

-- The case of OpFollow and OpUnfollow.
decode_entity : List ℕ → SubFrame → Result SubFrame
decode_entity bytes f =
    if ltb (length bytes) 5
    then err sub_frame_too_short
    else ok (record f { entity_id = get_bytes (slice 1 5 bytes) })

unfoldable pub decode_sub_frame : List ℕ → Result SubFrame
unfolding decode_area decode_entity
decode_sub_frame bytes =
    if ltb (length bytes) 1
    then err sub_frame_too_short
    else let op : ℕ = get_or bytes 0 0 in
      if op == op_subscribe || op == op_unsubscribe
      then decode_area bytes (blank op)
      else if op == op_follow || op == op_unfollow
      then decode_entity bytes (blank op)
      else if op == op_ping
      then ok (blank op)
      else err unknown_opcode

-- A new buffer of 25 bytes, its first byte the opcode, and three fields written into it.
unfoldable pub encode_subscribe : ℕ → ℕ → ℕ → Option (List ℕ)
encode_subscribe lat lng radius_m = do
  buf ← put_at 1 (put_bytes 8 lng) (op_subscribe ∷ replicate 24 0)
  buf' ← put_at 9 (put_bytes 8 lat) buf
  put_at 17 (put_bytes 8 radius_m) buf'
