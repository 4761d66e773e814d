-- ===== src/Daemon/Ended.antt =====
-- How the daemon ends.
use aerocast.Prelude.{ℕ, ◌≡◌, refl, ap, true, Option, some}
use aerocast.Engine.Assembly.{Assembly, launch}
use aerocast.Engine.Lifecycle.{System, Runs, start, returned, ContextError, canceled}
use aerocast.Engine.Lifecycle.Started.{Reads}
use aerocast.Engine.Lifecycle.Safe.{run_safe}
use aerocast.Engine.Lifecycle.Returned.{run_returns}
use aerocast.Daemon.{exited, main_exit}

-- With a positive tick rate, the workers that the configuration asks for, and a listener, if any, whose batch
-- size is positive and whose packet size is not negative, however the engine has run: when Run returns, the daemon exits with status 1, so after an orderly
-- shutdown too; and once a signal has cancelled the context, and as long as nothing has panicked, Run can still return and the daemon exit so.
pub run-main_exit :
    {E : Type 0} (a : Assembly E) (workers : ℕ) (x : System)
    → launch a ≡ some workers
    → Reads a.udp
    → Runs (start a workers) x
    → ((err : Option ContextError) → x.caller ≡ returned err → main_exit err ≡ exited 1)
      × (x.shared.cancelled ≡ true
          → (y : System) × Runs x y
            × (err : Option ContextError) × (y.caller ≡ returned err)
            × (main_exit err ≡ exited 1))
unfolding main_exit
run-main_exit a workers x launched reads runs = (
  λ err h.
      let (nothing, calm, ends) = run_safe a workers x launched reads runs in
      let (cancelled, is_error, all, closed) = ends err h in ap main_exit is_error,
  λ c.
      let (y, rest, end) = run_returns a workers x launched reads runs c in
      (y, rest, some canceled, end, refl),
)
