-- ===== src/Engine/Assembly.antt =====
-- pkg/engine/engine.go: NewEngine with the listener and the server that the configuration asks for, and
-- what Run starts. Whether the sockets open is an argument.
pub mod Parts
use Prim.Native.String.{String}
use aerocast.Prelude.{
  ◌>>=◌, ℕ, zero, suc, Bool, true, false, List, Option, none, some, if◌then◌else◌,
}
use aerocast.Prelude.Int.{ℤ, pos, negsuc}
use aerocast.Transport.Udp.{Listener, new_listener}
use aerocast.Transport.Ws
use aerocast.Transport.Ws.{Server, new_server}
use aerocast.Engine.Config
use aerocast.Engine.Pipeline.{Engine, new_engine}

-- An Engine of engine.go: its own state, the listener and the server.
pub record Assembly (E : Type 0) : Type 0 where
  pub cfg : Config.Config E
  pub engine : Engine E
  pub udp : Option Listener
  pub ws : Option Server

pub data Created (E : Type 0) : Type 0 where
  created : Assembly E → Created E
  listener_error : Created E

server_of : Ws.Config → Bool → Option Server
server_of cfg true = none
server_of cfg false = some (new_server cfg)

-- The workers that Run starts; none for a number that is not positive.
workers : ℤ → ℕ
workers (pos n) = n
workers (negsuc n) = 0

-- Whether time.NewTicker takes the duration.
unfoldable pub ticks : ℤ → Bool
ticks (pos zero) = false
ticks (pos (suc n)) = true
ticks (negsuc n) = false

module _ {E : Type 0} where
  assembly : Config.Config E → Option Listener → Assembly E
  unfolding server_of
  assembly cfg udp = record {
    cfg = cfg;
    engine = new_engine cfg.on_geofence_enter cfg.on_geofence_exit;
    udp = udp;
    ws = server_of cfg.ws cfg.disable_ws;
  }

  -- NewEngine; none is the panic on a negative channel size, which comes after the socket is open.
  unfoldable pub create : Config.Config E → Bool → Option (Created E)
  unfolding assembly
  create cfg opens = elim cfg.disable_udp [
    | true ↦ some (created (assembly cfg none))
    | false ↦ elim opens [
      | false ↦ some listener_error
      | true ↦ do l ← new_listener cfg.udp; some (created (assembly cfg (some l)))
    ]
  ]

  -- What Run starts: the number of workers, and a tick loop, which panics if it can make no ticker.
  unfoldable pub launch : Assembly E → Option ℕ
  unfolding workers ticks
  launch a = if ticks a.cfg.tick_rate then some (workers a.cfg.pipeline_workers) else none
