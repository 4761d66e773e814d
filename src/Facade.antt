-- ===== src/Facade.antt =====
-- aerocast.go: the library's own Engine, around that of pkg/engine.
pub mod Delivered
mod Tests
use aerocast.Prelude.{ℕ, Bool, List, Option}
use aerocast.Binary.Codec.{CoordPacket}
use aerocast.Float.{Platform}
use aerocast.Fanout.Subscribers
use aerocast.Spatial.Grid
use aerocast.Geofence.Store.{Store}
use aerocast.Engine.Config
use aerocast.Engine.Stats
use aerocast.Engine.Stats.{EngineStats}
use aerocast.Engine.Assembly.{Assembly, Created, create}
use aerocast.Engine.Lifecycle.{System, start}
use aerocast.Engine.Pipeline
use aerocast.Engine.Pipeline.{Engine, IngressPacket, process_packet}

module _ {E : Type 0} where
  -- New; none is the panic of NewEngine, whose error it passes on.
  unfoldable pub new : Config.Config E → Bool → Option (Created E)
  new cfg opens = create cfg opens

  -- Run, with the workers that it starts.
  unfoldable pub run : Assembly E → ℕ → System
  run a workers = start a workers

  unfoldable pub fences : Assembly E → Store
  fences a = a.engine.fences

  unfoldable pub stats : Platform → Assembly E → EngineStats
  stats p a = Stats.stats p a.engine a.udp a.ws

  -- Publish at a time; ProcessPacket reads the clock once more.
  unfoldable pub publish : Platform → Engine E → ℕ → ℕ → ℕ → ℕ → ℕ → Option (Engine E × List E)
  publish p e entity_id lat lng timestamp now =
      let coord : CoordPacket = record { lng = lng; lat = lat } in
      let pkt : IngressPacket = record {
        entity_id = entity_id;
        coord = coord;
        timestamp = timestamp;
      } in
      process_packet p e pkt now

  unfoldable pub seed_position : Platform → Engine E → ℕ → ℕ → ℕ → Engine E
  seed_position p e entity_id lat lng = Pipeline.seed_position p e entity_id lat lng

  unfoldable pub follow : Engine E → ℕ → ℕ → Engine E
  follow e sub_id entity_id = record e { fanout = Subscribers.follow e.fanout sub_id entity_id }

  unfoldable pub unfollow : Engine E → ℕ → ℕ → Engine E
  unfollow e sub_id entity_id = record e { fanout = Subscribers.unfollow e.fanout sub_id entity_id }

  unfoldable pub subscribers_in_cell : Engine E → ℕ → ℕ
  subscribers_in_cell e cell = Subscribers.subscribers_in_cell e.fanout cell

  unfoldable pub shard_stats : Engine E → ℕ → ℕ
  shard_stats e cell = Grid.shard_stats e.grid cell
