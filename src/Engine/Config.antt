-- ===== src/Engine/Config.antt =====
-- pkg/engine/config.go. A duration is its nanoseconds; the logger is left out.
use Prim.Native.String.{String}
use aerocast.Prelude.{ℕ, ◌*◌, ◌^◌, Bool, false, List, Option, none}
use aerocast.Prelude.Int.{ℤ, pos}
use aerocast.Transport.Udp
use aerocast.Transport.Ws

-- The callbacks are none for nil, and lists of their effects.
pub record Config (E : Type 0) : Type 0 where
  pub ws : Ws.Config
  pub udp : Udp.Config
  pub disable_ws : Bool
  pub disable_udp : Bool
  pub grid_shards : ℤ
  pub cell_size_m : ℕ
  pub tick_rate : ℤ
  pub pipeline_workers : ℤ
  pub max_entities : ℤ
  pub on_geofence_enter : Option (ℕ → String → List E)
  pub on_geofence_exit : Option (ℕ → String → List E)

unfoldable pub default_config : {E : Type 0} → Config E
default_config = record {
  ws = Ws.default_config;
  udp = Udp.default_config;
  disable_ws = false;
  disable_udp = false;
  grid_shards = pos 256;
  cell_size_m = 0x407f_4000_0000_0000;
  tick_rate = pos (50 * 10 ^ 6);
  pipeline_workers = pos 4;
  max_entities = pos 2_000_000;
  on_geofence_enter = none;
  on_geofence_exit = none;
}
