-- ===== src/Binary/Tests.antt =====
-- The codecs on concrete packets and frames.
use aerocast.Prelude.{ℕ, ◌≡◌, refl, List, [], ◌∷◌, ◌++◌, length, some, arith}
use aerocast.Binary.Codec.{CoordPacket, ExtendedPacket, decode_coord_in_place, decode_extended, ok}
use aerocast.Binary.LittleEndian.{get_bytes}
use aerocast.Binary.Egress.{
  EgressRecord, EgressBuffer, get_egress_buffer, append_all, decode_egress_frame,
}
use aerocast.Binary.Egress.Laws.{IsBuffer, append_all-decode}
use aerocast.Float.Samples.{bay_lat, bay_lng, city_lat, city_lng}

abbrev nowhere : CoordPacket
nowhere = record { lng = 0; lat = 0 }

abbrev sixteen : List ℕ
sixteen = 9 ∷ 9 ∷ 9 ∷ 9 ∷ 9 ∷ 9 ∷ 9 ∷ 9 ∷ 9 ∷ 9 ∷ 9 ∷ 9 ∷ 9 ∷ 9 ∷ 9 ∷ 9 ∷ []

abbrev nines : CoordPacket
nines = record { lng = 0x0909_0909_0909_0909; lat = 0x0909_0909_0909_0909 }

nines_run : decode_coord_in_place sixteen nowhere ≡ ok nines
unfolding decode_coord_in_place get_bytes
nines_run = refl

abbrev old_extended : ExtendedPacket
old_extended = record { version = 0; lng = 0; lat = 0; bearing = 0; speed = 0; entity_id = 41 }

abbrev fresh_extended : ExtendedPacket
fresh_extended = record {
  version = 9;
  lng = 0x0909_0909_0909_0909;
  lat = 0x0909_0909_0909_0909;
  bearing = 0x0909_0909;
  speed = 0x0909_0909;
  entity_id = 41;
}

extended_run : decode_extended (sixteen ++ sixteen) old_extended ≡ ok fresh_extended
unfolding decode_extended get_bytes
extended_run = refl

-- A pooled buffer in which one record fits, and two that make it grow.
abbrev tiny : EgressBuffer
tiny = record { bytes = 1 ∷ []; n = 1; cap = 20 }

abbrev two_records : List EgressRecord
two_records =
    record { entity_id = 1; lat = bay_lat; lng = bay_lng }
    ∷ record { entity_id = 2; lat = city_lat; lng = city_lng }
    ∷ []

append_all-decode_example :
    (b : EgressBuffer) × (append_all (get_egress_buffer tiny) two_records ≡ some b)
    × IsBuffer b
    × (b.n ≡ length two_records)
    × (decode_egress_frame b.bytes ≡ ok two_records)
append_all-decode_example = append_all-decode tiny two_records (omega arith) (ground arith)
