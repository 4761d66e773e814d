-- ===== src/Metrics.antt =====
-- pkg/metrics/metrics.go. The registry and the two collectors for the Go runtime and the process are of the
-- Prometheus client and are parameters.
pub mod Registered
use Prim.Native.String.{String}
use aerocast.Prelude.{◌>>=◌, ℕ, List, [], ◌∷◌, Option, some}

-- The buckets of a histogram are float64.
pub data Kind : Type 0 where
  gauge counter : Kind
  histogram : List ℕ → Kind

pub record Collector : Type 0 where
  pub name : String
  pub help : String
  pub kind : Kind

-- NewRegistry, NewGoCollector and NewProcessCollector with MustRegister, and MustRegister of one of the
-- collectors below; none is its panic.
pub record Registry (R : Type 0) : Type 0 where
  pub new_registry : R
  pub register_go : R → Option R
  pub register_process : R → Option R
  pub register : R → Collector → Option R

abbrev pub connections_active : Collector
connections_active = record {
  name = "aerocast_connections_active";
  help = "Current open WebSocket connections";
  kind = gauge;
}

abbrev pub connections_total : Collector
connections_total = record {
  name = "aerocast_connections_total";
  help = "Total connections accepted since startup";
  kind = counter;
}

abbrev pub packets_routed : Collector
packets_routed = record {
  name = "aerocast_packets_routed_total";
  help = "Total UDP packets successfully routed";
  kind = counter;
}

abbrev pub packets_dropped : Collector
packets_dropped = record {
  name = "aerocast_packets_dropped_total";
  help = "Total UDP packets dropped (backpressure)";
  kind = counter;
}

-- 10, 25, 50, 100, 250, 500, 1000, 2500, 5000 and 10000.
abbrev pub routing_latency : Collector
routing_latency = record {
  name = "aerocast_routing_latency_ns";
  help = "Per-packet routing latency in nanoseconds";
  kind = histogram (
      0x4024_0000_0000_0000 ∷ 0x4039_0000_0000_0000 ∷ 0x4049_0000_0000_0000 ∷ 0x4059_0000_0000_0000
      ∷ 0x406f_4000_0000_0000 ∷ 0x407f_4000_0000_0000 ∷ 0x408f_4000_0000_0000
      ∷ 0x40a3_8800_0000_0000 ∷ 0x40b3_8800_0000_0000 ∷ 0x40c3_8800_0000_0000 ∷ []);
}

abbrev pub broadcast_bytes : Collector
broadcast_bytes = record {
  name = "aerocast_broadcast_bytes_total";
  help = "Total bytes broadcast to WebSocket clients";
  kind = counter;
}

abbrev pub geofence_events : Collector
geofence_events = record {
  name = "aerocast_geofence_events_total";
  help = "Total geofence enter/exit events triggered";
  kind = counter;
}

-- 10, 50, 100, 250, 500, 1000, 5000, 10000 and 50000.
abbrev pub shard_lock_wait_ns : Collector
shard_lock_wait_ns = record {
  name = "aerocast_shard_lock_wait_ns";
  help = "Time spent waiting on shard mutex in nanoseconds";
  kind = histogram (
      0x4024_0000_0000_0000 ∷ 0x4049_0000_0000_0000 ∷ 0x4059_0000_0000_0000 ∷ 0x406f_4000_0000_0000
      ∷ 0x407f_4000_0000_0000 ∷ 0x408f_4000_0000_0000 ∷ 0x40b3_8800_0000_0000
      ∷ 0x40c3_8800_0000_0000 ∷ 0x40e8_6a00_0000_0000 ∷ []);
}

abbrev pub subscribers_active : Collector
subscribers_active = record {
  name = "aerocast_subscribers_active";
  help = "Current active spatial subscriptions";
  kind = gauge;
}

abbrev pub entities_active : Collector
entities_active = record {
  name = "aerocast_entities_active";
  help = "Current tracked entities in spatial grid";
  kind = gauge;
}

abbrev pub unique_entities : Collector
unique_entities = record {
  name = "aerocast_unique_entities_estimated";
  help = "Estimated unique entities (HLL) over analytics window";
  kind = gauge;
}

-- The collectors in the order in which New registers them.
abbrev pub collectors : List Collector
collectors =
    connections_active ∷ connections_total ∷ packets_routed ∷ packets_dropped ∷ routing_latency
    ∷ broadcast_bytes ∷ geofence_events ∷ shard_lock_wait_ns ∷ subscribers_active ∷ entities_active
    ∷ unique_entities ∷ []

module _ {R : Type 0} (reg : Registry R) where
  register_all : R → List Collector → Option R
  register_all r [] = some r
  register_all r (c ∷ cs) = do r' ← reg.register r c; register_all r' cs

  -- New
  unfoldable pub new_metrics : Option R
  unfolding register_all
  new_metrics = do
    r ← reg.register_go reg.new_registry
    r' ← reg.register_process r
    register_all r' collectors
