-- ===== src/Clients/Web.antt =====
-- examples/basic_web/main.go: the simulated entities. A random number is looked up by its place; the
-- page, its server and the signals are outside.
pub mod Simulated
use Prim.Native.String.{String}
use aerocast.Prelude.{
  ◌>>=◌, ℕ, zero, suc, ◌+◌, ◌*◌, ◌%◌, ◌^◌, ◌≡◌, ◌∙◌, refl, ap, List, [], ◌∷◌, ◌++◌, length, Option,
  none, some, arith,
}
use aerocast.Binary.Codec.{CoordPacket}
use aerocast.Float
use aerocast.Float.{Platform}
use aerocast.Geofence.Fence.{Fence}
use aerocast.Engine.Pipeline.{Engine, IngressPacket, process_all}
use aerocast.Engine.Pipeline.Ready.{IsReady, process_packet-Processed}
use aerocast.Engine.Pipeline.Steps.{same_value}
use aerocast.Engine.Pipeline.Limits.{process_all_counts}
use aerocast.Facade.{publish}

-- Entity of simulateEntities
pub record Entity : Type 0 where
  pub id : ℕ
  pub lat : ℕ
  pub lng : ℕ

-- rand.Float64()*0.02 - 0.01, and (rand.Float64() - 0.5) * 0.0001
abbrev scatter : ℕ → ℕ
scatter r = Float.sub (Float.mul r 0x3f947ae147ae147b) 0x3f847ae147ae147b

abbrev jitter : ℕ → ℕ
jitter r = Float.mul (Float.sub r 0x3fe0000000000000) 0x3f1a36e2eb1c432d

-- The entities left, and the next one, around 37.7749 and -122.4194.
entities_loop : ℕ → ℕ → (ℕ → ℕ) → List Entity
entities_loop zero i rand = []
entities_loop (suc n) i rand =
    record {
      id = i % 2 ^ 32;
      lat = Float.add 0x4042e32fec56d5d0 (scatter (rand (2 * i)));
      lng = Float.add 0xc05e9ad77318fc50 (scatter (rand (2 * i + 1)));
    }
    ∷ entities_loop n (i + 1) rand

unfoldable pub make_entities : (ℕ → ℕ) → List Entity
unfolding entities_loop
make_entities rand = entities_loop 100 0 rand

move : (ℕ → ℕ) → Entity → Entity
move rand e = record e {
  lat = Float.add e.lat (jitter (rand (2 * e.id)));
  lng = Float.add e.lng (jitter (rand (2 * e.id + 1)));
}

abbrev pub packet_of : Entity → ℕ → IngressPacket
packet_of e timestamp = record {
  entity_id = e.id;
  coord = record { lng = e.lng; lat = e.lat };
  timestamp = timestamp;
}

module _ {E : Type 0} (p : Platform) (now : ℕ) where
  -- One tick: each entity moves and is published.
  unfoldable pub simulate_round :
      (ℕ → ℕ) → List Entity → Engine E → Option (List Entity × Engine E × List E)
  unfolding move
  simulate_round rand [] e = some ([], e, [])
  simulate_round rand (x ∷ entities) e = do
    r ← publish p e (move rand x).id (move rand x).lat (move rand x).lng now now
    rest ← simulate_round rand entities r.0
    some (move rand x ∷ rest.0, rest.1, r.1 ++ rest.2)

  -- So many ticks, with the random numbers of each.
  unfoldable pub simulate_loop :
      List (ℕ → ℕ) → List Entity → Engine E → Option (List Entity × Engine E × List E)
  simulate_loop [] entities e = some (entities, e, [])
  simulate_loop (rand ∷ ticks) entities e = do
    r ← simulate_round rand entities e
    rest ← simulate_loop ticks r.0 r.1
    some (rest.0, rest.1, r.2 ++ rest.2)
