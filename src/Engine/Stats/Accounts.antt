-- ===== src/Engine/Stats/Accounts.antt =====
-- The statistics over a whole run: the listener, the worker behind it, and the counters.
use Prim.Native.String.{String}
use aerocast.Prelude.{
  ℕ, suc, ◌+◌, ◌*◌, ◌%◌, ◌^◌, ◌≡◌, ◌∙◌, refl, ap, List, [], length, Option, some, arith, All,
}
use aerocast.Prelude.Int.{pos}
use aerocast.Float.{Platform}
use aerocast.Geofence.Fence.{Fence}
use aerocast.Fanout.Subscribers.{Fanout, new_fanout}
use aerocast.Transport.Udp.{Listener, Turn, run}
use aerocast.Transport.Udp.Batches.{IsBounded}
use aerocast.Transport.Udp.Turns.{IsHonest, datagrams, ending, run-Took}
use aerocast.Transport.Ws.{Server}
use aerocast.Engine.Pipeline.{Engine, process_all, new_engine}
use aerocast.Engine.Pipeline.Ready.{IsReady}
use aerocast.Engine.Pipeline.Limits.{process_all_counts}
use aerocast.Engine.Stats.{stats, listener_drops}

-- The listener runs and a worker takes all that then waits: neither panics, and every datagram of 16 bytes or
-- more that came before the listener ended is counted by the statistics exactly once, as routed or as dropped,
-- modulo 2 ^ 64.
pub run-process_all-stats :
    {E : Type 0} (p : Platform) (fs : List Fence) (e : Engine E) (l : Listener) (k now : ℕ)
    (turns : List Turn) (ws : Option Server)
    → IsReady p fs e
    → IsBounded l
    → l.out ≡ []
    → l.cfg.batch_size ≡ pos (suc k)
    → All (IsHonest k (suc k * 44)) turns
    → (l' : Listener) × (e' : Engine E) × (effects : List E) × (run turns l
        ≡ some (l', ending turns))
      × (process_all p e l'.out now ≡ some (e', effects))
      × (let before = stats p e (some l) ws in
          let after = stats p e' (some (record l' { out = [] })) ws in
          (after.packets_routed + after.packets_dropped) % 2 ^ 64
          ≡ (before.packets_routed + before.packets_dropped + datagrams turns) % 2 ^ 64)
unfolding stats listener_drops
run-process_all-stats p fs e l k now turns ws r b empty size honest =
    let (l', ran, took) = run-Took turns l k b size honest in
    let (e', effects, processed, r', counts, fan) = process_all_counts p fs e l'.out now r in
    (
      l',
      e',
      effects,
      ran,
      processed,
      sums e.packets_routed e.packets_dropped e'.packets_routed e'.packets_dropped l.dropped_packets
          l'.dropped_packets (length l'.out) (datagrams turns) e.fanout.dropped_frames
          e'.fanout.dropped_frames (ap (λ (f : Fanout). f.dropped_frames) fan) counts
          (took.counted
            ∙ ap (λ n. (n + l.dropped_packets + datagrams turns) % 2 ^ 64) (ap length empty)),
    )
  where
    sums :
        (r d r' d' u u' waiting came f f' : ℕ)
        → f' ≡ f
        → (r' + d') % 2 ^ 64 ≡ (r + d + waiting) % 2 ^ 64
        → (waiting + u') % 2 ^ 64 ≡ (0 + u + came) % 2 ^ 64
        → (r' + ((d' + u') % 2 ^ 64 + f') % 2 ^ 64) % 2 ^ 64
          ≡ (r + ((d + u) % 2 ^ 64 + f) % 2 ^ 64 + came) % 2 ^ 64
    sums r d r' d' u u' waiting came f f' same counted arrived =
        omega (arith, same, counted, arrived)

-- A new engine has counted nothing yet.
pub new_engine-stats :
    {E : Type 0} (p : Platform) (on_enter on_exit : Option (ℕ → String → List E)) (l : Listener)
    (ws : Option Server)
    → l.dropped_packets ≡ 0
    → let s = stats p (new_engine on_enter on_exit) (some l) ws in
      (s.packets_routed ≡ 0) × (s.packets_dropped ≡ 0)
unfolding stats listener_drops new_engine new_fanout
new_engine-stats p on_enter on_exit l ws h = (refl, omega (arith, h))
