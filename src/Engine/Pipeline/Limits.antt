-- ===== src/Engine/Pipeline/Limits.antt =====
-- Which packets ProcessPacket drops, and the counters over a sequence of packets.
use aerocast.Prelude.{
  ℕ, suc, ◌+◌, ◌%◌, ◌^◌, ◌≤◌, ◌<◌, ◌≡◌, ◌∙◌, refl, Bool, true, false, List, [], ◌∷◌, ◌++◌, length,
  some, if◌then◌else◌, arith,
}
use aerocast.Prelude.Count.{count}
use aerocast.Float
use aerocast.Float.{Platform}
use aerocast.Geofence.Fence.{Fence}
use aerocast.Engine.Cms
use aerocast.Engine.Cms.{add_and_estimate, CountMinSketch}
use aerocast.Engine.Cms.Estimate.{estimate-reset_bounds}
use aerocast.Engine.Pipeline.{
  Engine, IngressPacket, last_position, process_packet, process_all, same_position, count_dropped,
}
use aerocast.Engine.Pipeline.Ready.{IsReady, accepts, process_packet-Processed}

-- Since the reset of the tick the sketch has counted the packets of these entities. A packet of an
-- entity that has had 50 packets or more is dropped: nothing but the sketch and the drop counter
-- changes, and no callback runs. And when fewer than 50 packets came in all, a packet to a new position is
-- taken.
pub process_packet_limit :
    {E : Type 0} (p : Platform) (fs : List Fence) (e : Engine E) (c : CountMinSketch) (ids : List ℕ)
    (pkt : IngressPacket) (now : ℕ)
    → e.cms ≡ Cms.add_all (Cms.reset c) ids
    → length ids + 1 < 2 ^ 32
    → (50 ≤ count pkt.entity_id ids
        → process_packet p e pkt now
          ≡ some (
            record e {
              cms = (add_and_estimate e.cms pkt.entity_id).0;
              packets_dropped = (e.packets_dropped + 1) % 2 ^ 64;
            },
            [],
          ))
      × (length ids < 50
          → same_position (last_position e pkt.entity_id) pkt.coord ≡ false
          → accepts p fs e pkt ≡ true)
unfolding process_packet count_dropped
process_packet_limit p fs e c ids pkt now counted small =
    (λ many. ground (arith, low, many), λ few moved. ground (arith, high, few, moved))
  where
    bounds :
        (count pkt.entity_id ids + 1 ≤ (add_and_estimate e.cms pkt.entity_id).1)
        × ((add_and_estimate e.cms pkt.entity_id).1 ≤ length ids + 1)
    bounds = rw counted (estimate-reset_bounds c ids pkt.entity_id small)

    low : count pkt.entity_id ids + 1 ≤ (add_and_estimate e.cms pkt.entity_id).1
    low = bounds.0

    high : (add_and_estimate e.cms pkt.entity_id).1 ≤ length ids + 1
    high = bounds.1

-- A packet that is taken, sent again: the repetition is dropped, whatever the limit says, and nothing
-- but the sketch and the drop counter changes. Its coordinates are numbers that equal themselves.
pub process_packet_repeated :
    {E : Type 0} (p : Platform) (fs : List Fence) (e : Engine E) (pkt : IngressPacket)
    (now later : ℕ)
    → IsReady p fs e
    → accepts p fs e pkt ≡ true
    → Float.eq pkt.coord.lat pkt.coord.lat ≡ true
    → Float.eq pkt.coord.lng pkt.coord.lng ≡ true
    → (e' : Engine E) × (effects : List E) × (process_packet p e pkt now ≡ some (e', effects))
      × (process_packet p e' pkt later
          ≡ some (
            record e' {
              cms = (add_and_estimate e'.cms pkt.entity_id).0;
              packets_dropped = (e'.packets_dropped + 1) % 2 ^ 64;
            },
            [],
          ))
unfolding process_packet count_dropped same_position
process_packet_repeated p fs e pkt now later r taken lat lng =
    let (e', effects, run, done) = process_packet-Processed p fs e pkt now r in
    (e', effects, run, ground (arith, done.positions pkt.entity_id, taken, lat, lng))

-- A worker that takes a sequence of packets never panics, the engine stays ready, and every packet is
-- counted exactly once, as routed or as dropped, modulo 2 ^ 64. No subscription and no channel changes.
pub process_all_counts :
    {E : Type 0} (p : Platform) (fs : List Fence) (e : Engine E) (pkts : List IngressPacket)
    (now : ℕ)
    → IsReady p fs e
    → (e' : Engine E) × (effects : List E) × (process_all p e pkts now ≡ some (e', effects))
      × IsReady p fs e'
      × ((e'.packets_routed + e'.packets_dropped) % 2 ^ 64
          ≡ (e.packets_routed + e.packets_dropped + length pkts) % 2 ^ 64)
      × (e'.fanout ≡ e.fanout)
unfolding process_all
process_all_counts p fs e [] now r = (e, [], refl, r, omega arith, refl)
process_all_counts p fs e (pkt ∷ pkts) now r =
    let (e1, effects1, run1, done) = process_packet-Processed p fs e pkt now r in
    let (e2, effects2, run2, r2, counts, fan) = process_all_counts p fs e1 pkts now done.ready in
    (
      e2,
      effects1 ++ effects2,
      rw (run1, run2),
      r2,
      counts
          ∙ counted_step e.packets_routed e.packets_dropped e1.packets_routed e1.packets_dropped
              (length pkts) (accepts p fs e pkt) done.routed done.dropped,
      fan ∙ done.fanout,
    )
  where
    counted_step :
        (r d r1 d1 n : ℕ) (taken : Bool)
        → r1 ≡ (if taken then (r + 1) % 2 ^ 64 else r)
        → d1 ≡ (if taken then d else (d + 1) % 2 ^ 64)
        → (r1 + d1 + n) % 2 ^ 64 ≡ (r + d + suc n) % 2 ^ 64
    counted_step r d r1 d1 n true h k = omega (arith, h, k)
    counted_step r d r1 d1 n false h k = omega (arith, h, k)

-- Since the reset of the tick the sketch of a ready engine has counted the packets of these entities. A
-- packet of an entity that has had 50 packets or more is dropped: nothing but the sketch and the drop counter
-- changes, and no callback runs. And when fewer than 50 packets came in all, a packet to a new position is
-- routed: ProcessPacket counts it as routed and keeps its position as the entity's last.
pub process_packet_limited :
    {E : Type 0} (p : Platform) (fs : List Fence) (e : Engine E) (c : CountMinSketch) (ids : List ℕ)
    (pkt : IngressPacket) (now : ℕ)
    → IsReady p fs e
    → e.cms ≡ Cms.add_all (Cms.reset c) ids
    → length ids + 1 < 2 ^ 32
    → (50 ≤ count pkt.entity_id ids
        → process_packet p e pkt now
          ≡ some (
            record e {
              cms = (add_and_estimate e.cms pkt.entity_id).0;
              packets_dropped = (e.packets_dropped + 1) % 2 ^ 64;
            },
            [],
          ))
      × (length ids < 50
          → same_position (last_position e pkt.entity_id) pkt.coord ≡ false
          → (e' : Engine E) × (effects : List E) × (process_packet p e pkt now ≡ some (e', effects))
            × (e'.packets_routed ≡ (e.packets_routed + 1) % 2 ^ 64)
            × (e'.packets_dropped ≡ e.packets_dropped)
            × (last_position e' pkt.entity_id ≡ some pkt.coord))
process_packet_limited p fs e c ids pkt now ready counted small =
    let (refuses, takes) = process_packet_limit p fs e c ids pkt now counted small in
    (
      refuses,
      λ few moved.
          let (e', effects, run, done) = process_packet-Processed p fs e pkt now ready in
          (
            e',
            effects,
            run,
            ground (arith, done.routed, takes few moved),
            ground (arith, done.dropped, takes few moved),
            ground (arith, done.positions pkt.entity_id, takes few moved),
          ),
    )
