-- ===== src/Facade/Delivered.antt =====
-- Publish against the way over UDP.
use aerocast.Prelude.{
  ℕ, ◌≡◌, ◌<◌, false, List, [], ◌∷◌, length, some, arith, append-nil, Option-cases, inl, inr,
}
use aerocast.Prelude.Int.{ltb_ℤ, pos}
use aerocast.Binary.Codec.{CoordPacket}
use aerocast.Binary.Codec.Laws.{IsCoord}
use aerocast.Binary.LittleEndian.{IsU32}
use aerocast.Float.{Platform}
use aerocast.Transport.Udp
use aerocast.Transport.Udp.{Listener}
use aerocast.Transport.Udp.Packets.{datagram, process_packet-datagram}
use aerocast.Engine.Pipeline.{Engine, IngressPacket, process_packet, process_all}
use aerocast.Facade.{publish}

-- A worker that finds one packet.
process_all_one :
    {E : Type 0} (p : Platform) (e : Engine E) (pkt : IngressPacket) (now : ℕ)
    → process_all p e (pkt ∷ []) now ≡ process_packet p e pkt now
unfolding process_all
process_all_one p e pkt now = elim (Option-cases (process_packet p e pkt now)) [
  | inl panics ↦ rw panics
  | inr ((e', effects), run) ↦ rw run (rw (append-nil effects))
]

-- A packet that a sender writes, that an idle listener with room takes and that a worker then takes from the
-- channel has the effect of Publish with the same id and coordinates at the same times: the same engine, the same
-- callbacks, and a panic exactly when Publish panics.
pub publish-delivered :
    {E : Type 0} (p : Platform) (e : Engine E) (l : Listener) (buf : List ℕ) (id : ℕ)
    (coord : CoordPacket) (timestamp now : ℕ)
    → length buf ≡ 20
    → IsU32 id
    → IsCoord coord
    → ltb_ℤ (pos 20) l.cfg.packet_size ≡ false
    → l.out ≡ []
    → 0 < l.capacity
    → (bytes : List ℕ) × (datagram buf id coord ≡ some bytes)
      × (process_all p e (Udp.process_packet l bytes timestamp).0.out now
          ≡ publish p e id coord.lat coord.lng timestamp now)
unfolding publish
publish-delivered p e l buf id coord timestamp now h hid hc fits idle room =
    let (bytes, written, taken) = process_packet-datagram l buf id coord timestamp h hid hc fits in
    (bytes, written, rw taken (ground (arith, idle, room, process_all_one p e pkt now)))
  where
    pkt : IngressPacket
    pkt = record { entity_id = id; coord = coord; timestamp = timestamp }
