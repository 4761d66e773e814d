-- ===== src/Engine/Assembly/Parts.antt =====
-- What NewEngine makes with a listener and a server, and what Run starts.
use aerocast.Prelude.{ℕ, suc, ◌≡◌, refl, true, false, [], some}
use aerocast.Prelude.Int.{pos}
use aerocast.Transport.Udp.{new_listener, make_len}
use aerocast.Transport.Ws.{new_server}
use aerocast.Engine.Config
use aerocast.Engine.Pipeline.{new_engine}
use aerocast.Engine.Assembly.{
  Assembly, created, create, launch, server_of, workers, ticks, assembly,
}

pub create_lem :
    {E : Type 0} (cfg : Config.Config E) (room : ℕ)
    → cfg.disable_udp ≡ false
    → cfg.disable_ws ≡ false
    → cfg.udp.channel_size ≡ pos room
    → create cfg true
      ≡ some (
          created (record {
            cfg = cfg;
            engine = new_engine cfg.on_geofence_enter cfg.on_geofence_exit;
            udp = some (record { cfg = cfg.udp; out = []; capacity = room; dropped_packets = 0 });
            ws = some (new_server cfg.ws);
          }))
unfolding create assembly server_of new_listener make_len
create_lem cfg room udp ws channel = rw (udp, channel, ws) refl

pub launch_lem :
    {E : Type 0} (a : Assembly E) (tick n : ℕ)
    → a.cfg.tick_rate ≡ pos (suc tick)
    → a.cfg.pipeline_workers ≡ pos n
    → launch a ≡ some n
unfolding launch workers ticks
launch_lem a tick n rate count = rw (rate, count) refl
