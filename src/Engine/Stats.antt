-- ===== src/Engine/Stats.antt =====
-- pkg/engine/stats.go. The WebSocket server and the UDP listener are none for nil. The counters are
-- read one after the other; the model reads them at one time.
pub mod Accounts
use aerocast.Prelude.{ℕ, zero, suc, ◌+◌, ◌%◌, ◌^◌, Option, none, some, length}
use aerocast.Float.{Platform}
use aerocast.Spatial.Grid
use aerocast.Spatial.Hash.{shard_count}
use aerocast.Geofence.Store.{count_fences}
use aerocast.Fanout.Subscribers.{subscriber_count}
use aerocast.Transport.Udp.{Listener}
use aerocast.Transport.Ws.{Server}
use aerocast.Engine.Hll
use aerocast.Engine.Hll.{HyperLogLog}
use aerocast.Engine.Pipeline.{Engine}

pub record EngineStats : Type 0 where
  pub packets_routed : ℕ
  pub packets_dropped : ℕ
  pub events_fired : ℕ
  pub unique_entities : ℕ
  pub connections : ℕ
  pub subscribers : ℕ
  pub entities : ℕ
  pub fences : ℕ
  pub connections_total : ℕ
  pub broadcast_bytes : ℕ

-- The shards left, the next one, and the sum so far.
unique_loop : Platform → ℕ → ℕ → (ℕ → HyperLogLog) → ℕ → ℕ
unique_loop p zero i shard_hll sum = sum
unique_loop p (suc n) i shard_hll sum =
    unique_loop p n (i + 1) shard_hll ((sum + Hll.estimate p (shard_hll i)) % 2 ^ 64)

listener_drops : Option Listener → ℕ
listener_drops none = 0
listener_drops (some l) = l.dropped_packets

conn_count : Option Server → ℕ
conn_count none = 0
conn_count (some s) = length s.conns

total_connections : Option Server → ℕ
total_connections none = 0
total_connections (some s) = s.total_conns

broadcast_total : Option Server → ℕ
broadcast_total none = 0
broadcast_total (some s) = s.broadcast_bytes

unfoldable pub stats :
    {E : Type 0} → Platform → Engine E → Option Listener → Option Server → EngineStats
unfolding unique_loop listener_drops conn_count total_connections broadcast_total
stats p e udp ws = record {
  packets_routed = e.packets_routed;
  packets_dropped =
      ((e.packets_dropped + listener_drops udp) % 2 ^ 64 + e.fanout.dropped_frames) % 2 ^ 64;
  events_fired = e.events_fired;
  unique_entities = unique_loop p shard_count 0 e.shard_hll 0;
  connections = conn_count ws;
  subscribers = subscriber_count e.fanout;
  entities = Grid.total e.grid;
  fences = count_fences e.fences;
  connections_total = total_connections ws;
  broadcast_bytes = broadcast_total ws;
}
