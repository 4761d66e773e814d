-- ===== src/Daemon.antt =====
-- cmd/aerocastd/main.go: the log level, the engine's configuration, and the loop that turns the
-- engine's statistics into metrics. Signals, the HTTP server of the metrics and the exit are outside.
pub mod Configured
pub mod Pumped
pub mod Served
pub mod Ended
mod Tests
use Prim.Native.String.{String}
use text.Mathlib.Text.{◌==◌ as str_eq}
use aerocast.Prelude.{
  ℕ, ◌-◌, Bool, true, false, List, [], ◌∷◌, ◌++◌, Option, none, some, leb, ltb, if◌then◌else◌,
}
use aerocast.Config.{FileConfig, ws_transport_config, udp_transport_config}
use aerocast.Float
use aerocast.Engine.Config
use aerocast.Engine.Stats.{EngineStats}
use aerocast.Engine.Lifecycle.{ContextError}

pub data Level : Type 0 where
  debug info warn error : Level

unfoldable pub log_level : String → Level
log_level s =
    if str_eq s "debug"
    then debug
    else if str_eq s "warn"
    then warn
    else if str_eq s "error"
    then error
    else info

-- engineCfg, with the two addresses of the server's section put in.
unfoldable pub engine_config : {E : Type 0} → FileConfig → Config.Config E
engine_config c = record {
  ws = record (ws_transport_config c.web_socket) { listen_addr = c.server.ws_listen };
  udp = record (udp_transport_config c.udp) { listen_addr = c.server.udp_listen };
  disable_ws = false;
  disable_udp = false;
  grid_shards = c.spatial.grid_shards;
  cell_size_m = c.spatial.cell_size_m;
  tick_rate = c.engine.tick_rate;
  pipeline_workers = c.engine.pipeline_workers;
  max_entities = c.engine.max_entities;
  on_geofence_enter = none;
  on_geofence_exit = none;
}

pub data Gauge : Type 0 where
  connections_active subscribers_active entities_active unique_entities : Gauge

pub data Counter : Type 0 where
  packets_routed packets_dropped geofence_events connections_total broadcast_bytes : Counter

-- The float64 values that one round of the loop sets and adds.
pub record Round : Type 0 where
  pub sets : List (Gauge × ℕ)
  pub adds : List (Counter × ℕ)

-- if stats.F > lastStats.F { m.F.Add(float64(stats.F - lastStats.F)) }; the value is a bit pattern.
add_rise : Counter → ℕ → ℕ → List (Counter × ℕ)
add_rise c now last = if ltb last now then (c, Float.of_ℕ (now - last)) ∷ [] else []

-- One tick of the ticker.
unfoldable pub pump_round : EngineStats → EngineStats → Round
unfolding add_rise
pump_round last stats = record {
  sets =
      (connections_active, Float.of_ℕ stats.connections)
      ∷ (subscribers_active, Float.of_ℕ stats.subscribers)
      ∷ (entities_active, Float.of_ℕ stats.entities)
      ∷ (unique_entities, Float.of_ℕ stats.unique_entities)
      ∷ [];
  adds =
      add_rise packets_routed stats.packets_routed last.packets_routed
      ++ (add_rise packets_dropped stats.packets_dropped last.packets_dropped
          ++ (add_rise geofence_events stats.events_fired last.events_fired
              ++ (add_rise connections_total stats.connections_total last.connections_total
                  ++ add_rise broadcast_bytes stats.broadcast_bytes last.broadcast_bytes)));
}

unfoldable pub zero_stats : EngineStats
zero_stats = record {
  packets_routed = 0;
  packets_dropped = 0;
  events_fired = 0;
  unique_entities = 0;
  connections = 0;
  subscribers = 0;
  entities = 0;
  fences = 0;
  connections_total = 0;
  broadcast_bytes = 0;
}

-- The rounds for the statistics that eng.Stats gives, from lastStats on.
unfoldable pub pump_loop : EngineStats → List EngineStats → List Round
pump_loop last [] = []
pump_loop last (stats ∷ readings) = pump_round last stats ∷ pump_loop stats readings

unfoldable pub pump : List EngineStats → List Round
pump readings = pump_loop zero_stats readings

-- The status that /healthz writes; Connections is the length of a map.
unfoldable pub healthz : EngineStats → ℕ
healthz stats = if leb 0 stats.connections then 200 else 503

-- How main ends behind eng.Run: os.Exit, or the log that the shutdown is complete.
pub data Exit : Type 0 where
  exited : ℕ → Exit
  completed : Exit

unfoldable pub main_exit : Option ContextError → Exit
main_exit none = completed
main_exit (some err) = exited 1
