-- ===== src/Daemon/Tests.antt =====
-- The daemon on concrete configurations and statistics.
use aerocast.Prelude.{
  ℕ, ◌+◌, ◌*◌, ◌%◌, ◌^◌, ◌≤◌, ◌≡◌, refl, true, false, List, [], ◌∷◌, Option, none, some, arith, All,
  replicate,
}
use aerocast.Prelude.Int.{pos}
use aerocast.Float.Samples.{flat}
use aerocast.Config.{FileConfig}
use aerocast.Transport.Udp
use aerocast.Transport.Udp.{Listener, Turn, cancelled, answered, messages, run}
use aerocast.Transport.Udp.Turns.{IsHonest, datagrams, ending}
use aerocast.Engine.Pipeline.{Engine, new_engine, process_all}
use aerocast.Engine.Assembly.{launch, Assembly, create, created, launch}
use aerocast.Engine.Stats.{EngineStats, stats}
use aerocast.Engine.Lifecycle.{System, cancels, Runs, done, more, start, returned, ContextError}
use aerocast.Daemon.{exited, main_exit, engine_config, pump, zero_stats, packets_routed}
use aerocast.Daemon.Configured.{empty_file}
use aerocast.Daemon.Pumped.{reading, given_in_all, floats, sum, last_of, Rises, pump-last_of}
use aerocast.Daemon.Ended.{run-main_exit}
use aerocast.Daemon.Served.{create-run-stats}

abbrev two_readings : List EngineStats
two_readings =
    record zero_stats { packets_routed = 10; subscribers = 2 }
    ∷ record zero_stats { packets_routed = 25; subscribers = 1 }
    ∷ []

pump-last_of_example :
    (ns : List ℕ) × (given_in_all packets_routed (pump two_readings) ≡ floats ns)
    × (reading packets_routed (last_of zero_stats two_readings) ≤ sum ns)
    × (Rises packets_routed zero_stats two_readings
        → sum ns ≡ reading packets_routed (last_of zero_stats two_readings))
pump-last_of_example = pump-last_of packets_routed two_readings

-- A file that reads one datagram at a time into a channel of 8.
abbrev small_file : FileConfig
small_file = record empty_file {
  udp = record { batch_size = pos 1; read_buffer = pos 4096; channel_size = pos 8 };
  engine = record {
    tick_rate = pos 50_000_000;
    pipeline_workers = pos 4;
    max_entities = pos 100;
    tick_rate_str = "";
  };
}

abbrev turns : List Turn
turns = answered (messages (replicate 44 1) (20 ∷ [])) 100 false ∷ cancelled ∷ []

turns-IsHonest : All (IsHonest 0 (1 * 44)) turns
turns-IsHonest = ((refl, omega arith, (omega arith, tt)), (tt, tt))

create-run-stats_example :
    (a : Assembly ℕ) × (l l' : Listener) × (e' : Engine ℕ) × (effects : List ℕ) × (create
        (engine_config small_file)
        true
      ≡ some (created a))
    × (launch a ≡ some 4)
    × (a.udp ≡ some l)
    × (run turns l ≡ some (l', ending turns))
    × (process_all flat a.engine l'.out 101 ≡ some (e', effects))
    × (let after = stats flat e' (some (record l' { out = [] })) a.ws in
        (after.packets_routed + after.packets_dropped) % 2 ^ 64 ≡ datagrams turns % 2 ^ 64)
create-run-stats_example =
    create-run-stats flat small_file 0 8 49_999_999 4 101 turns refl refl refl refl turns-IsHonest

-- An engine of the daemon, whose context a signal cancels at once.
abbrev assembly : Assembly ℕ
assembly = record {
  cfg = engine_config small_file;
  engine = new_engine none none;
  udp = some (record { cfg = Udp.default_config; out = []; capacity = 8; dropped_packets = 0 });
  ws = none;
}

abbrev cancelled_start : System
cancelled_start = record {
  shared = record (start assembly 4).shared { cancelled = true };
  caller = (start assembly 4).caller;
  routines = (start assembly 4).routines;
}

runs : Runs (start assembly 4) cancelled_start
runs =
    more (start assembly 4) cancelled_start cancelled_start
      (cancels (start assembly 4).shared (start assembly 4).caller (start assembly 4).routines)
      (done cancelled_start)

launched : launch assembly ≡ some 4
unfolding launch engine_config
launched = refl

run-main_exit_example :
    ((err : Option ContextError) → cancelled_start.caller ≡ returned err → main_exit err ≡ exited 1)
    × (cancelled_start.shared.cancelled ≡ true
        → (y : System) × Runs cancelled_start y
          × (err : Option ContextError) × (y.caller ≡ returned err)
          × (main_exit err ≡ exited 1))
unfolding Udp.default_config
run-main_exit_example = run-main_exit assembly 4 cancelled_start launched (31, 16, refl, refl) runs
