-- ===== src/Engine/Tests.antt =====
-- The sketches and the pipeline on concrete packets.
use Prim.Native.String.{String}
use aerocast.Prelude.{
  replicate, ℕ, ◌+◌, ◌%◌, ◌^◌, ◌<◌, ◌≤◌, ◌≡◌, ◌↔◌, refl, true, false, List, [], ◌∷◌, length, Option,
  none, some, arith,
}
use aerocast.Prelude.Assoc.{lookup}
use aerocast.Prelude.Count.{count}
use aerocast.Binary.Codec.{CoordPacket}
use aerocast.Binary.Egress.{EgressBuffer}
use aerocast.Float
use aerocast.Float.Samples.{flat, bay_lat, bay_lng, city_lat, city_lng}
use aerocast.Spatial.Hash.{shard_key, cell_key, clamp15}
use aerocast.Spatial.Grid.{key_of, get}
use aerocast.Spatial.Grid.Tracking.{Tracks}
use aerocast.Fanout.Subscribers.Index.{IsSound}
use aerocast.Engine.Cms
use aerocast.Engine.Cms.{CountMinSketch, add_and_estimate}
use aerocast.Engine.Cms.Estimate.{estimate-reset_bounds}
use aerocast.Engine.Hll
use aerocast.Engine.Pipeline.{
  Engine, IngressPacket, new_engine, process_packet, process_all, tick, on_unsubscribe,
  seed_position, last_position, same_position,
}
use aerocast.Engine.Pipeline.Ready.{IsReady, Processed, accepts, process_packet-Processed}
use aerocast.Engine.Pipeline.Limits.{process_packet_limit, process_packet_limited}
use aerocast.Engine.Pipeline.Replay.{replay, repeats, process_all-replay}
use aerocast.Engine.Pipeline.Steps.{
  Runs, done, more, packet, new_engine-IsReady, always_safe, seed_position_duplicates,
}

abbrev empty_sketch : CountMinSketch
empty_sketch i j = 0

abbrev ids : List ℕ
ids = 7 ∷ 8 ∷ 7 ∷ []

estimate-reset_bounds_example :
    (count 7 ids + 1 ≤ (add_and_estimate (Cms.add_all (Cms.reset empty_sketch) ids) 7).1)
    × ((add_and_estimate (Cms.add_all (Cms.reset empty_sketch) ids) 7).1 ≤ length ids + 1)
estimate-reset_bounds_example = estimate-reset_bounds empty_sketch ids 7 (omega arith)

abbrev no_registers : Hll.HyperLogLog
no_registers i = 0

both : (k : ℕ) → (0 < count k (7 ∷ [])) ↔ (0 < count k (7 ∷ 7 ∷ []))
unfolding count
both k = (λ h. ground arith, λ h. ground arith)

-- An engine whose callbacks report the entity.
abbrev report : Option (ℕ → String → List ℕ)
report = some (λ id name. id ∷ [])

abbrev start : Engine ℕ
start = new_engine report report

start-IsReady : IsReady flat [] start
start-IsReady = new_engine-IsReady flat report report

abbrev bay : CoordPacket
bay = record { lng = bay_lng; lat = bay_lat }

abbrev at_bay : IngressPacket
at_bay = record { entity_id = 7; coord = bay; timestamp = 100 }

process_packet-Processed_example :
    (e' : Engine ℕ) × (effects : List ℕ) × (process_packet flat start at_bay 100
      ≡ some (e', effects))
    × Processed flat [] start at_bay 100 e' effects
process_packet-Processed_example = process_packet-Processed flat [] start at_bay 100 start-IsReady

nobody_yet : same_position (last_position start 7) bay ≡ false
unfolding new_engine same_position lookup
nobody_yet = refl

-- The engine in whose tick the entity 7 has had three packets.
abbrev busy : Engine ℕ
busy = record start { cms = Cms.add_all (Cms.reset empty_sketch) ids }

busy-IsReady : IsReady flat [] busy
busy-IsReady = record {
  tracks = start-IsReady.tracks;
  stored = start-IsReady.stored;
  sound = start-IsReady.sound;
}

first_taken : accepts flat [] busy at_bay ≡ true
first_taken =
    (process_packet_limit flat [] busy empty_sketch ids at_bay 100 refl (omega arith)).1
      (omega arith) nobody_yet

abbrev pooled : EgressBuffer
pooled = record { bytes = []; n = 0; cap = 4096 }

-- The engine after one packet.
abbrev seen :
    (e' : Engine ℕ) × (effects : List ℕ) × (process_packet flat busy at_bay 100
      ≡ some (e', effects))
    × Processed flat [] busy at_bay 100 e' effects
seen = process_packet-Processed flat [] busy at_bay 100 busy-IsReady

abbrev after : Engine ℕ
after = seen.0

abbrev first :
    (e' : Engine ℕ) × (effects : List ℕ) × (process_packet flat start at_bay 100
      ≡ some (e', effects))
    × Processed flat [] start at_bay 100 e' effects
first = process_packet-Processed flat [] start at_bay 100 start-IsReady

one_run : Runs flat pooled start first.0
one_run =
    more start first.0 first.0 (packet start first.0 at_bay 100 first.1 first.2) (done first.0)

always_safe_example :
    Tracks flat first.0.grid (last_position first.0)
    × IsSound first.0.fanout
    × ((id : ℕ)
        → get first.0.grid id
          ≡ elim (last_position first.0 id) [ none ↦ none | some c ↦ some (record { coord = c }) ])
    × ((pkt : IngressPacket) (now : ℕ)
        → (r : Engine ℕ × List ℕ) × (process_packet flat first.0 pkt now ≡ some r))
    × ((e' : Engine ℕ) × (tick pooled first.0 ≡ some e'))
    × ((id : ℕ) → (e' : Engine ℕ) × (on_unsubscribe first.0 id ≡ some e'))
always_safe_example = always_safe flat pooled report report first.0 (omega arith) one_run

after_position : last_position after 7 ≡ some bay
after_position = ground (arith, seen.3.positions 7, first_taken)

abbrev city : CoordPacket
city = record { lng = city_lng; lat = city_lat }

bay_key : key_of flat bay ≡ 178
unfolding shard_key clamp15 cell_key Float.add Float.mul Float.div Float.to_int32
bay_key = refl

city_key : key_of flat city ≡ 180
unfolding shard_key clamp15 cell_key Float.add Float.mul Float.div Float.to_int32
city_key = refl

seed_position_duplicates_example :
    (last_position (seed_position flat after 7 city_lat city_lng) 7 ≡ some city)
    × (lookup 7 ((seed_position flat after 7 city_lat city_lng).grid (key_of flat city) 7)
        ≡ some (record { coord = city }))
    × (lookup 7 ((seed_position flat after 7 city_lat city_lng).grid (key_of flat bay) 7)
        ≡ some (record { coord = bay }))
seed_position_duplicates_example =
    seed_position_duplicates flat [] after 7 city_lat city_lng bay seen.3.ready after_position
      (λ h. omega (arith, h, bay_key, city_key))

start_sketch : start.cms ≡ Cms.reset empty_sketch
unfolding new_engine Cms.reset
start_sketch = refl

abbrev sent_twice : List IngressPacket
sent_twice = at_bay ∷ at_bay ∷ []

process_all-replay_example :
    (e' : Engine ℕ) × (effects : List ℕ) × (process_all flat start sent_twice 100
      ≡ some (e', effects))
    × ((id : ℕ)
        → get e'.grid id ≡ elim (replay (last_position start) sent_twice id) [
          | none ↦ none
          | some coord ↦ some (record { coord = coord })
        ])
    × (e'.packets_dropped % 2 ^ 64
        ≡ (start.packets_dropped + repeats (last_position start) sent_twice) % 2 ^ 64)
process_all-replay_example =
    process_all-replay flat [] empty_sketch start sent_twice 100 start-IsReady start_sketch
      (omega arith)

-- A tick in which the entity 7 has had 50 packets.
abbrev full_ids : List ℕ
full_ids = replicate 50 7

abbrev full : Engine ℕ
full = record start { cms = Cms.add_all (Cms.reset empty_sketch) full_ids }

full-IsReady : IsReady flat [] full
full-IsReady = record {
  tracks = start-IsReady.tracks;
  stored = start-IsReady.stored;
  sound = start-IsReady.sound;
}

process_packet_limited_example :
    (50 ≤ count 7 full_ids
      → process_packet flat full at_bay 100
        ≡ some (
          record full {
            cms = (add_and_estimate full.cms 7).0;
            packets_dropped = (full.packets_dropped + 1) % 2 ^ 64;
          },
          [],
        ))
    × (length full_ids < 50
        → same_position (last_position full 7) bay ≡ false
        → (e' : Engine ℕ) × (effects : List ℕ) × (process_packet flat full at_bay 100
            ≡ some (e', effects))
          × (e'.packets_routed ≡ (full.packets_routed + 1) % 2 ^ 64)
          × (e'.packets_dropped ≡ full.packets_dropped)
          × (last_position e' 7 ≡ some bay))
process_packet_limited_example =
    process_packet_limited flat [] full empty_sketch full_ids at_bay 100 full-IsReady refl
      (omega arith)

had_fifty : 50 ≤ count 7 full_ids
unfolding count
had_fifty = omega arith
