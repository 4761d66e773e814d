-- ===== src/Engine/Workers/Tests.antt =====
-- Two workers with packets of two entities.
use Prim.Native.String.{String}
use aerocast.Prelude.{
  ℕ, ◌+◌, ◌%◌, ◌^◌, ◌≤◌, ◌≡◌, ◌≢◌, refl, List, [], ◌∷◌, Option, some, ltb, if◌then◌else◌, arith,
}
use aerocast.Prelude.Array.{update}
use aerocast.Binary.Egress.{EgressBuffer}
use aerocast.Float.Samples.{flat, bay_lat, bay_lng, city_lat, city_lng}
use aerocast.Spatial.Grid.Tracking.{Tracks}
use aerocast.Geofence.Fence.{Fence}
use aerocast.Geofence.Store.{new_store, register_all}
use aerocast.Engine.Cms.{add_and_estimate}
use aerocast.Engine.Pipeline.{Engine, IngressPacket, new_engine, last_position}
use aerocast.Engine.Pipeline.Ready.{IsReady}
use aerocast.Engine.Pipeline.Steps.{new_engine-IsReady}
use aerocast.Engine.Workers.{
  Phase, idle, received, counted, refused, entity_of, advance, System, receives, advances, Runs,
  done, more,
}
use aerocast.Engine.Workers.Fits.{Positions}
use aerocast.Engine.Workers.Local.{calls}
use aerocast.Engine.Workers.Invariant.{workers_tracked}
use aerocast.Engine.Workers.Quiet.{Own, Runs-trans, workers_come_to_rest}
use aerocast.Engine.Workers.Counted.{taken, workers_counted}

abbrev report : Option (ℕ → String → List ℕ)
report = some (λ id name. id ∷ [])

abbrev start : Engine ℕ
start = new_engine report report

start-IsReady : IsReady flat [] start
start-IsReady = new_engine-IsReady flat report report

abbrev pooled : EgressBuffer
pooled = record { bytes = []; n = 0; cap = 4096 }

abbrev at_bay : IngressPacket
at_bay = record { entity_id = 7; coord = record { lng = bay_lng; lat = bay_lat }; timestamp = 1 }

abbrev at_city : IngressPacket
at_city = record { entity_id = 8; coord = record { lng = city_lng; lat = city_lat }; timestamp = 1 }

abbrev resting : ℕ → Phase
resting i = idle

abbrev one_holds : ℕ → Phase
one_holds = update resting 0 (received at_bay)

abbrev both_hold : ℕ → Phase
both_hold = update one_holds 1 (received at_city)

-- The first of them has been counted.
abbrev counted_engine : Engine ℕ
counted_engine = record start { cms = (add_and_estimate start.cms 7).0 }

abbrev next_phase : Phase
next_phase = if ltb 50 (add_and_estimate start.cms 7).1 then refused else counted at_bay

abbrev at_work : System ℕ
at_work = record { engine = counted_engine; phase = update both_hold 0 next_phase }

first_access : advance flat 100 start (both_hold 0) ≡ some (counted_engine, next_phase, [])
unfolding advance
first_access = refl

other_entity : (j : ℕ) → entity_of (one_holds j) ≢ some 8
other_entity j h = ground (arith, h)

runs : Runs flat pooled (record { engine = start; phase = resting }) at_work
runs =
    more (record { engine = start; phase = resting }) (record { engine = start; phase = one_holds })
      at_work (receives start resting 0 at_bay refl (λ j h. ground (arith, h)))
      (more (record { engine = start; phase = one_holds })
        (record { engine = start; phase = both_hold }) at_work
        (receives start one_holds 1 at_city refl other_entity)
        (more (record { engine = start; phase = both_hold }) at_work at_work
          (advances start counted_engine both_hold 0 100 next_phase [] first_access)
          (done at_work)))

workers_tracked_example :
    ((registered : List Fence) × (at_work.engine.fences ≡ register_all flat new_store registered)
      × ((i now : ℕ)
          → (e' : Engine ℕ) × (next : Phase) × (advance flat now at_work.engine (at_work.phase i)
              ≡ some (e', next, calls flat registered now at_work.engine (at_work.phase i)))))
    × ((seen : Positions) × Tracks flat at_work.engine.grid seen
        × ((id : ℕ)
            → ((i : ℕ) → entity_of (at_work.phase i) ≢ some id)
            → seen id ≡ last_position at_work.engine id))
    × (((i : ℕ) → at_work.phase i ≡ idle)
        → Tracks flat at_work.engine.grid (last_position at_work.engine))
workers_tracked_example = workers_tracked flat pooled [] start at_work start-IsReady runs

others_rest : (k : ℕ) → 2 ≤ k → at_work.phase k ≡ idle
others_rest k h = ground (arith, h)

workers_come_to_rest_example :
    (s' : System ℕ) × (run : Runs flat pooled at_work s') × ((k : ℕ) → s'.phase k ≡ idle)
    × Own flat pooled run
    × Tracks flat s'.engine.grid (last_position s'.engine)
workers_come_to_rest_example =
    workers_come_to_rest flat pooled [] start at_work 2 start-IsReady runs others_rest

-- The same two workers, left to finish.
finished :
    (s' : System ℕ) × (run : Runs flat pooled at_work s') × ((k : ℕ) → s'.phase k ≡ idle)
    × Own flat pooled run
    × Tracks flat s'.engine.grid (last_position s'.engine)
finished = workers_come_to_rest flat pooled [] start at_work 2 start-IsReady runs others_rest

abbrev whole_run : Runs flat pooled (record { engine = start; phase = resting }) finished.0
whole_run =
    Runs-trans flat pooled (record { engine = start; phase = resting }) at_work finished.0 runs
      finished.1

workers_counted_example :
    (finished.0.engine.packets_routed + finished.0.engine.packets_dropped) % 2 ^ 64
    ≡ (start.packets_routed + start.packets_dropped + taken whole_run) % 2 ^ 64
workers_counted_example =
    workers_counted flat pooled (record { engine = start; phase = resting }) finished.0 whole_run
      (λ i. refl) finished.2
