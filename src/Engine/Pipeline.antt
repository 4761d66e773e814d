-- ===== src/Engine/Pipeline.antt =====
-- pkg/engine/pipeline.go, callbacks.go and the state of engine.go. The workers and the tick loop call
-- these operations; the model runs one at a time. `none` is a panic. The clock is an argument, and so
-- is the buffer that the pool hands out. A callback is the list of its effects.
pub mod Ready
pub mod Limits
pub mod Tick
pub mod Untouched
pub mod Steps
pub mod Replay
use Prim.Native.String.{String}
use aerocast.Prelude.{
  ◌>>=◌, ℕ, zero, suc, ◌+◌, ◌%◌, ◌^◌, Bool, true, false, ◌&&◌, List, [], ◌∷◌, ◌++◌, length, Option,
  none, some, ltb, ◌==◌, if◌then◌else◌,
}
use aerocast.Prelude.Assoc.{lookup, insert}
use aerocast.Prelude.Array.{update}
use aerocast.Binary.Codec.{CoordPacket}
use aerocast.Binary.Egress.{EgressBuffer}
use aerocast.Float
use aerocast.Float.{Platform}
use aerocast.Spatial.Hash.{shard_key, shard_count}
use aerocast.Spatial.Grid
use aerocast.Spatial.Grid.{Grid, new_grid, egress_records}
use aerocast.Geofence.Store.{Store, new_store}
use aerocast.Geofence.Evaluate.{Evaluator, FenceEvent, EventType, enter, exit, evaluate_move}
use aerocast.Fanout.Subscribers
use aerocast.Fanout.Subscribers.{Fanout, new_fanout, subscribers_in_cell, broadcast}
use aerocast.Engine.Cms
use aerocast.Engine.Cms.{CountMinSketch, add_and_estimate}
use aerocast.Engine.Hll
use aerocast.Engine.Hll.{HyperLogLog}
pub use aerocast.Transport.Udp.{IngressPacket}

abbrev pub prev_pos_shards : ℕ
prev_pos_shards = 128

pub record Engine (E : Type 0) : Type 0 where
  pub grid : Grid
  pub fences : Store
  pub evaluator : Evaluator E
  pub fanout : Fanout
  pub prev_pos : ℕ → List (ℕ × CoordPacket)
  pub cms : CountMinSketch
  pub shard_hll : ℕ → HyperLogLog
  pub packets_routed : ℕ
  pub packets_dropped : ℕ
  pub events_fired : ℕ

abbrev pub set_position :
    (ℕ → List (ℕ × CoordPacket)) → ℕ → CoordPacket → ℕ → List (ℕ × CoordPacket)
set_position prev_pos id coord =
    update prev_pos (id % prev_pos_shards) (insert id coord (prev_pos (id % prev_pos_shards)))

-- prev != nil && prev.Lat == coord.Lat && prev.Lng == coord.Lng
unfoldable pub same_position : Option CoordPacket → CoordPacket → Bool
same_position none coord = false
same_position (some prev) coord = Float.eq prev.lat coord.lat && Float.eq prev.lng coord.lng

module _ {E : Type 0} where
  -- The global callback that NewEngine installs; a callback of the configuration is none for nil.
  call_configured : Option (ℕ → String → List E) → FenceEvent → List E
  call_configured none ev = []
  call_configured (some fn) ev = fn ev.entity_id ev.fence_name

  global_callback :
      Option (ℕ → String → List E) → Option (ℕ → String → List E) → FenceEvent → List E
  unfolding call_configured
  global_callback on_enter on_exit ev = elim ev.kind [
    | enter ↦ call_configured on_enter ev
    | exit ↦ call_configured on_exit ev
  ]

  unfoldable pub new_engine : Option (ℕ → String → List E) → Option (ℕ → String → List E) → Engine E
  unfolding global_callback
  new_engine on_enter on_exit = record {
    grid = new_grid;
    fences = new_store;
    evaluator = record {
      callbacks = [];
      global_callback = some (global_callback on_enter on_exit);
    };
    fanout = new_fanout;
    prev_pos = λ shard. [];
    cms = λ row col. 0;
    shard_hll = λ shard i. 0;
    packets_routed = 0;
    packets_dropped = 0;
    events_fired = 0;
  }

  -- e.prevPosShards[id % prevPosShards].m[id], nil for a missing key
  abbrev pub last_position : Engine E → ℕ → Option CoordPacket
  last_position e id = lookup id (e.prev_pos (id % prev_pos_shards))

  -- e.packetsDropped.Add(1)
  unfoldable pub count_dropped : Engine E → Engine E
  count_dropped e = record e { packets_dropped = (e.packets_dropped + 1) % 2 ^ 64 }

  -- The writes of ProcessPacket for a packet that moves its entity, whose move has these events.
  abbrev pub routed_engine :
      Platform → Engine E → IngressPacket → Option CoordPacket → List FenceEvent → Engine E
  routed_engine p e pkt prev events =
      let key : ℕ = shard_key p pkt.coord.lat pkt.coord.lng in
      record e {
        grid = (Grid.route_with_previous p e.grid pkt.entity_id pkt.coord prev).0;
        events_fired = (e.events_fired + length events) % 2 ^ 64;
        prev_pos = set_position e.prev_pos pkt.entity_id pkt.coord;
        shard_hll = update e.shard_hll key (Hll.add (e.shard_hll key) pkt.entity_id);
        packets_routed = (e.packets_routed + 1) % 2 ^ 64;
      }

  -- The part of ProcessPacket behind the two early returns.
  unfoldable pub route_packet :
      Platform → Engine E → IngressPacket → Option CoordPacket → ℕ → Option (Engine E × List E)
  route_packet p e pkt prev now = do
    r ← evaluate_move p e.evaluator e.fences pkt.entity_id prev pkt.coord now
    some (routed_engine p e pkt prev r.0, r.1)

  unfoldable pub process_packet :
      Platform → Engine E → IngressPacket → ℕ → Option (Engine E × List E)
  unfolding route_packet same_position count_dropped
  process_packet p e pkt now =
      let counted : CountMinSketch × ℕ = add_and_estimate e.cms pkt.entity_id in
      let e' : Engine E = record e { cms = counted.0 } in
      let prev : Option CoordPacket = last_position e pkt.entity_id in
      if ltb 50 counted.1
      then some (count_dropped e', [])
      else if same_position prev pkt.coord
      then some (count_dropped e', [])
      else route_packet p e' pkt prev now

  -- The worker's loop over the packets that it receives.
  unfoldable pub process_all :
      Platform → Engine E → List IngressPacket → ℕ → Option (Engine E × List E)
  process_all p e [] now = some (e, [])
  process_all p e (pkt ∷ pkts) now = do
    r ← process_packet p e pkt now
    rest ← process_all p r.0 pkts now
    some (rest.0, r.1 ++ rest.1)

  -- One round of broadcastTick.
  broadcast_cell : EgressBuffer → Engine E → ℕ → Option (Engine E)
  broadcast_cell recycled e cell =
      if subscribers_in_cell e.fanout cell == 0
      then some e
      else if length (egress_records e.grid cell) == 0
      then some e
      else do
        r ← broadcast recycled e.fanout cell (egress_records e.grid cell)
        some (record e { fanout = r.0 })

  -- The cells left, and the next one.
  cells_loop : ℕ → ℕ → EgressBuffer → Engine E → Option (Engine E)
  unfolding broadcast_cell
  cells_loop zero cell recycled e = some e
  cells_loop (suc n) cell recycled e = do
    e' ← broadcast_cell recycled e cell
    cells_loop n (cell + 1) recycled e'

  unfoldable pub broadcast_tick : EgressBuffer → Engine E → Option (Engine E)
  unfolding cells_loop
  broadcast_tick recycled e = cells_loop shard_count 0 recycled e

  -- One tick of tickLoop.
  unfoldable pub tick : EgressBuffer → Engine E → Option (Engine E)
  unfolding broadcast_tick
  tick recycled e = broadcast_tick recycled (record e { cms = Cms.reset e.cms })

  unfoldable pub seed_position : Platform → Engine E → ℕ → ℕ → ℕ → Engine E
  seed_position p e id lat lng =
      let coord : CoordPacket = record { lng = lng; lat = lat } in
      record e { prev_pos = set_position e.prev_pos id coord; grid = Grid.route p e.grid id coord }

  unfoldable pub on_subscribe : Platform → Engine E → ℕ → ℕ → ℕ → ℕ → Engine E
  on_subscribe p e sub_id lat lng radius_m = record e {
    fanout = Subscribers.subscribe p e.fanout sub_id lat lng radius_m;
  }

  -- OnUnsubscribe and OnDisconnect
  unfoldable pub on_unsubscribe : Engine E → ℕ → Option (Engine E)
  on_unsubscribe e sub_id = do
    fanout ← Subscribers.unsubscribe e.fanout sub_id
    some (record e { fanout = fanout })

  unfoldable pub on_follow : Engine E → ℕ → ℕ → Engine E
  on_follow e sub_id entity_id = record e { fanout = Subscribers.follow e.fanout sub_id entity_id }

  unfoldable pub on_unfollow : Engine E → ℕ → ℕ → Engine E
  on_unfollow e sub_id entity_id = record e {
    fanout = Subscribers.unfollow e.fanout sub_id entity_id;
  }
