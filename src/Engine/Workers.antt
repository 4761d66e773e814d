-- ===== src/Engine/Workers.antt =====
-- pkg/engine/pipeline.go: ProcessPacket as the accesses to shared state that a worker makes, one at a
-- time, and any number of workers that take turns between them. A lock of the source covers one
-- access, and so does an atomic counter. A phase is where a worker stands and what it holds locally.
pub mod Alone
pub mod Fits
pub mod Local
pub mod Kept
pub mod Invariant
pub mod Quiet
pub mod Counted
mod Tests
use aerocast.Prelude.{
  ◌>>=◌, ℕ, zero, suc, ◌+◌, ◌%◌, ◌^◌, ◌≡◌, ◌≢◌, ◌++◌, Bool, true, false, List, [], length, Option,
  none, some, ltb, if◌then◌else◌,
}
use aerocast.Prelude.Array.{update}
use aerocast.Binary.Codec.{CoordPacket}
use aerocast.Binary.Egress.{EgressBuffer}
use aerocast.Float.{Platform}
use aerocast.Spatial.Grid
use aerocast.Spatial.Grid.{key_of}
use aerocast.Geofence.Fence.{Fence}
use aerocast.Geofence.Store.{register}
use aerocast.Geofence.Evaluate.{FenceEvent, evaluate_move}
use aerocast.Engine.Cms.{CountMinSketch, add_and_estimate}
use aerocast.Engine.Hll
use aerocast.Engine.Pipeline.{
  Engine, IngressPacket, last_position, set_position, same_position, count_dropped, tick,
}

-- The phases of a worker, in the order of the code; `found` says whether prev is not nil.
pub data Phase : Type 0 where
  idle : Phase
  received : IngressPacket → Phase
  refused : Phase
  counted : IngressPacket → Phase
  fetched : (pkt : IngressPacket) (found : Bool) → Phase
  moving : (pkt : IngressPacket) (found : Bool) → Phase
  left : (pkt : IngressPacket) (found : Bool) → Phase
  entered : (pkt : IngressPacket) (found : Bool) → Phase
  evaluated : IngressPacket → Phase
  stored : IngressPacket → Phase

-- The entity whose packet a worker holds; a refused packet is not read again.
abbrev pub entity_of : Phase → Option ℕ
entity_of idle = none
entity_of (received pkt) = some pkt.entity_id
entity_of refused = none
entity_of (counted pkt) = some pkt.entity_id
entity_of (fetched pkt found) = some pkt.entity_id
entity_of (moving pkt found) = some pkt.entity_id
entity_of (left pkt found) = some pkt.entity_id
entity_of (entered pkt found) = some pkt.entity_id
entity_of (evaluated pkt) = some pkt.entity_id
entity_of (stored pkt) = some pkt.entity_id

abbrev pub is_some : {A : Type 0} → Option A → Bool
is_some none = false
is_some (some a) = true

module _ {E : Type 0} where
  -- prev is a pointer into the map, where a later store writes in place: it shows the last position of
  -- the moment when it is followed.
  abbrev pub follow_pointer : Engine E → ℕ → Bool → Option CoordPacket
  follow_pointer e id found = if found then last_position e id else none

  -- One access of a worker, and the effects of the callbacks that it calls.
  unfoldable pub advance : Platform → ℕ → Engine E → Phase → Option (Engine E × Phase × List E)
  unfolding count_dropped
  advance p now e idle = some (e, idle, [])
  advance p now e (received pkt) =
      let c : CountMinSketch × ℕ = add_and_estimate e.cms pkt.entity_id in
      some (record e { cms = c.0 }, (if ltb 50 c.1 then refused else counted pkt), [])
  advance p now e refused = some (count_dropped e, idle, [])
  advance p now e (counted pkt) =
      some (e, fetched pkt (is_some (last_position e pkt.entity_id)), [])
  advance p now e (fetched pkt found) =
      let same : Bool = same_position (follow_pointer e pkt.entity_id found) pkt.coord in
      some (e, (if same then refused else moving pkt found), [])
  advance p now e (moving pkt found) = some (
    record e {
      grid =
          Grid.leave_old p e.grid pkt.entity_id (key_of p pkt.coord)
            (follow_pointer e pkt.entity_id found);
    },
    left pkt found,
    [],
  )
  advance p now e (left pkt found) =
      some (record e { grid = Grid.route p e.grid pkt.entity_id pkt.coord }, entered pkt found, [])
  advance p now e (entered pkt found) = do
    r ←
        evaluate_move p e.evaluator e.fences pkt.entity_id (follow_pointer e pkt.entity_id found)
          pkt.coord now
    some (record e { events_fired = (e.events_fired + length r.0) % 2 ^ 64 }, evaluated pkt, r.1)
  advance p now e (evaluated pkt) =
      some (record e { prev_pos = set_position e.prev_pos pkt.entity_id pkt.coord }, stored pkt, [])
  advance p now e (stored pkt) =
      let key : ℕ = key_of p pkt.coord in
      some (
        record e {
          shard_hll = update e.shard_hll key (Hll.add (e.shard_hll key) pkt.entity_id);
          packets_routed = (e.packets_routed + 1) % 2 ^ 64;
        },
        idle,
        [],
      )

-- The engine and the phase of each worker.
pub record System (E : Type 0) : Type 0 where
  pub engine : Engine E
  pub phase : ℕ → Phase

-- A worker receives a packet of an entity of which no worker holds one, a worker makes one access,
-- the tick loop runs a tick, or a fence is registered.
pub data Step {E : Type 0} (p : Platform) (recycled : EgressBuffer)
    : System E → System E → Type 0 where
  receives :
      (e : Engine E) (phase : ℕ → Phase) (i : ℕ) (pkt : IngressPacket)
      → phase i ≡ idle
      → ((j : ℕ) → entity_of (phase j) ≢ some pkt.entity_id)
      → Step p recycled
          (record { engine = e; phase = phase })
          (record { engine = e; phase = update phase i (received pkt) })
  advances :
      (e e' : Engine E) (phase : ℕ → Phase) (i now : ℕ) (next : Phase) (effects : List E)
      → advance p now e (phase i) ≡ some (e', next, effects)
      → Step p recycled
          (record { engine = e; phase = phase })
          (record { engine = e'; phase = update phase i next })
  ticked :
      (e e' : Engine E) (phase : ℕ → Phase)
      → tick recycled e ≡ some e'
      → Step p recycled
          (record { engine = e; phase = phase })
          (record { engine = e'; phase = phase })
  registered :
      (e : Engine E) (phase : ℕ → Phase) (f : Fence)
      → Step p recycled
          (record { engine = e; phase = phase })
          (record { engine = record e { fences = register p e.fences f }; phase = phase })

-- Any number of steps, in any order.
pub data Runs {E : Type 0} (p : Platform) (recycled : EgressBuffer)
    : System E → System E → Type 0 where
  done : (s : System E) → Runs p recycled s s
  more :
      (s s' s'' : System E) → Step p recycled s s' → Runs p recycled s' s'' → Runs p recycled s s''

-- The phases a worker goes through when nothing else runs: at most so many accesses.
unfoldable pub advance_all :
    {E : Type 0} → ℕ → Platform → ℕ → Engine E → Phase → Option (Engine E × Phase × List E)
advance_all zero p now e ph = some (e, ph, [])
advance_all (suc n) p now e ph = do
  r ← advance p now e ph
  rest ← advance_all n p now r.0 r.1
  some (rest.0, rest.1, r.2 ++ rest.2)
