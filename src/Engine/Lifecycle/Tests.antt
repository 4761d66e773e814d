-- ===== src/Engine/Lifecycle/Tests.antt =====
-- An engine with a listener and a server, four workers, and a context that is cancelled at once.
use aerocast.Prelude.{ℕ, ◌≡◌, ◌≢◌, ◌⊎◌, refl, true, [], Option, none, some, get_elem?}
use aerocast.Transport.Udp
use aerocast.Transport.Ws
use aerocast.Engine.Config
use aerocast.Engine.Pipeline.{new_engine}
use aerocast.Engine.Assembly.{Assembly, launch}
use aerocast.Engine.Lifecycle.{
  Goroutine, worker_process, tick_run, over, crash, returned, Branch, panics, resume, resume_caller,
  ContextError, canceled, System, cancels, Runs, done, more, start,
}
use aerocast.Engine.Lifecycle.Safe.{run_safe}
use aerocast.Engine.Lifecycle.Returned.{run_returns}

abbrev assembly : Assembly ℕ
assembly = record {
  cfg = Config.default_config;
  engine = new_engine none none;
  udp = some (record { cfg = Udp.default_config; out = []; capacity = 8; dropped_packets = 0 });
  ws = some (Ws.new_server Ws.default_config);
}

abbrev cancelled_start : System
cancelled_start = record {
  shared = record (start assembly 4).shared { cancelled = true };
  caller = (start assembly 4).caller;
  routines = (start assembly 4).routines;
}

runs : Runs (start assembly 4) cancelled_start
runs =
    more (start assembly 4) cancelled_start cancelled_start
      (cancels (start assembly 4).shared (start assembly 4).caller (start assembly 4).routines)
      (done cancelled_start)

launched : launch assembly ≡ some 4
unfolding launch Config.default_config
launched = refl

run_safe_example :
    ((i : ℕ) (g : Goroutine) (b : Branch)
      → get_elem? cancelled_start.routines i ≡ some g
      → resume cancelled_start.shared b g ≡ panics
      → (b ≡ crash) × ((g ≡ worker_process) ⊎ (g ≡ tick_run)))
    × (resume_caller cancelled_start.shared cancelled_start.caller ≢ panics)
    × ((err : Option ContextError)
        → cancelled_start.caller ≡ returned err
        → (cancelled_start.shared.cancelled ≡ true)
          × (err ≡ some canceled)
          × ((i : ℕ) (g : Goroutine) → get_elem? cancelled_start.routines i ≡ some g → g ≡ over)
          × (cancelled_start.shared.out_closed ≡ cancelled_start.shared.has_udp))
unfolding Udp.default_config
run_safe_example = run_safe assembly 4 cancelled_start launched (31, 16, refl, refl) runs

run_returns_example : (y : System) × Runs cancelled_start y × (y.caller ≡ returned (some canceled))
unfolding Udp.default_config
run_returns_example = run_returns assembly 4 cancelled_start launched (31, 16, refl, refl) runs refl
