-- ===== src/Daemon/Served.antt =====
-- The daemon from its configuration to its statistics.
use aerocast.Prelude.{
  ℕ, suc, ◌+◌, ◌*◌, ◌%◌, ◌^◌, ◌≡◌, refl, true, List, [], Option, none, some, arith, All,
}
use aerocast.Prelude.Int.{pos}
use aerocast.Float.{Platform}
use aerocast.Config.{FileConfig, udp_transport_config, ws_transport_config}
use aerocast.Transport.Udp
use aerocast.Transport.Udp.{Listener, Turn, new_listener, run}
use aerocast.Transport.Udp.Batches.{IsBounded}
use aerocast.Transport.Udp.Turns.{IsHonest, datagrams, ending}
use aerocast.Transport.Ws.{Server, new_server}
use aerocast.Engine.Pipeline.{Engine, new_engine, process_all}
use aerocast.Engine.Pipeline.Steps.{new_engine-IsReady}
use aerocast.Engine.Assembly.{Assembly, create, created, launch}
use aerocast.Engine.Assembly.Parts.{create_lem, launch_lem}
use aerocast.Engine.Stats.{stats}
use aerocast.Engine.Stats.Accounts.{run-process_all-stats, new_engine-stats}
use aerocast.Daemon.{engine_config}

-- A configuration with a positive batch size, a channel size that is not negative and a positive tick rate, whose
-- socket opens: the daemon's engine is made without a panic or an error and starts its tick loop and its workers.
-- While the kernel keeps to its buffer, the listener runs without a panic; and once a worker has taken what then
-- waits, the statistics have counted every datagram of 16 bytes or more that came before the listener ended exactly
-- once, as routed or as dropped, modulo 2 ^ 64.
pub create-run-stats :
    {E : Type 0} (p : Platform) (c : FileConfig) (k room tick n now : ℕ) (turns : List Turn)
    → c.udp.batch_size ≡ pos (suc k)
    → c.udp.channel_size ≡ pos room
    → c.engine.tick_rate ≡ pos (suc tick)
    → c.engine.pipeline_workers ≡ pos n
    → All (IsHonest k (suc k * 44)) turns
    → (a : Assembly E) × (l l' : Listener) × (e' : Engine E) × (effects : List E) × (create
          (engine_config c)
          true
        ≡ some (created a))
      × (launch a ≡ some n)
      × (a.udp ≡ some l)
      × (run turns l ≡ some (l', ending turns))
      × (process_all p a.engine l'.out now ≡ some (e', effects))
      × (let after = stats p e' (some (record l' { out = [] })) a.ws in
          (after.packets_routed + after.packets_dropped) % 2 ^ 64 ≡ datagrams turns % 2 ^ 64)
unfolding engine_config udp_transport_config Udp.default_config
create-run-stats {E = E} p c k room tick n now turns batch channel rate count honest =
    let l : Listener = record {
      cfg = record (udp_transport_config c.udp) { listen_addr = c.server.udp_listen };
      out = [];
      capacity = room;
      dropped_packets = 0;
    } in
    let b : IsBounded l = record { within = omega arith; size = refl } in
    let e : Engine E = new_engine none none in
    let ws : Option Server = some (
      new_server
        (record (ws_transport_config c.web_socket) { listen_addr = c.server.ws_listen })) in
    let (l', e', effects, ran, processed, counted) =
      run-process_all-stats p [] e l k now turns ws (new_engine-IsReady p none none) b refl batch
        honest in
    let (routed, dropped) = new_engine-stats {E = E} p none none l ws refl in
    (
      record { cfg = engine_config c; engine = e; udp = some l; ws = ws },
      l,
      l',
      e',
      effects,
      create_lem (engine_config c) room refl refl channel,
      launch_lem _ tick n rate count,
      refl,
      ran,
      processed,
      omega (arith, counted, routed, dropped),
    )
