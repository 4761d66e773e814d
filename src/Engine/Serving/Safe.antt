-- ===== src/Engine/Serving/Safe.antt =====
-- What holds whenever the server and the engine have run for a while.
use Prim.Native.String.{String}
use aerocast.Prelude.{
  ℕ, ◌+◌, ◌^◌, ◌≤◌, ◌<◌, ◌≡◌, ◌≢◌, ◌∙◌, refl, sym, subst, Bool, List, [], Option, none, some, arith,
}
use aerocast.Prelude.Assoc.{lookup}
use aerocast.Binary.Egress.{EgressBuffer}
use aerocast.Float.{Platform}
use aerocast.Fanout.Channel.{ChannelManager}
use aerocast.Fanout.Subscribers.Index.{IsSound}
use aerocast.Fanout.Subscribers.{new_fanout}
use aerocast.Transport.Ws
use aerocast.Transport.Ws.{Server, Query, accept, leave, new_server, subscribe_query, write_rounds}
use aerocast.Transport.Ws.Writer.{Written, write_rounds-Written}
use aerocast.Engine.Pipeline.{
  Engine, IngressPacket, new_engine, process_packet, tick, on_unsubscribe,
}
use aerocast.Engine.Pipeline.Ready.{IsReady, process_packet-Processed}
use aerocast.Engine.Pipeline.Tick.{tick-IsReady}
use aerocast.Engine.Pipeline.Steps.{
  Step-Ready, new_engine-IsReady, on_unsubscribe-IsReady, same_value,
}
use aerocast.Engine.Serving.{
  World, Step, accepted, opened, left, disconnected, wrote, internal, Runs, done, more, start,
  engine_callbacks,
}
use aerocast.Engine.Serving.Issued.{internal-AddsNone, on_unsubscribe-AddsNone}
use aerocast.Engine.Serving.Kept.{
  IsServing, engine-IsServing, accepted-IsServing, opened-IsServing, left-IsServing,
  wrote-IsServing,
}

module _ {E : Type 0} (p : Platform) (recycled : EgressBuffer) (room : 20 ≤ recycled.cap) where
  Step-IsServing : (w w' : World E) → Step p recycled w w' → IsServing p w → IsServing p w'
  unfolding engine_callbacks
  Step-IsServing _ _ (accepted w conn few) v = accepted-IsServing p w conn few v
  Step-IsServing _ _ (opened w id q waits) v = opened-IsServing p w id q waits v
  Step-IsServing _ _ (left w conn) v = left-IsServing p w conn v
  Step-IsServing _ _ (disconnected w id e' run) v =
      let (e1, run1, r1) = on_unsubscribe-IsReady p v.ready.0 w.engine id v.ready.1 in
      engine-IsServing p w e' v
        (v.ready.0, same_value (IsReady p v.ready.0) (on_unsubscribe w.engine id) e1 e' run1 run r1)
        (on_unsubscribe-AddsNone p v.ready.0 w.engine e' id v.ready.1 run)
  Step-IsServing _ _ (wrote w events ref s' cm' out stopped run) v =
      let (s1, cm1, out1, stopped1, run1, t) =
        write_rounds-Written events ref w.server w.engine.fanout.channels [] v.small.1 in
      wrote-IsServing p w ref s' cm' out
        (subst
          (λ (x : Server × ChannelManager × List (List ℕ) × Bool).
            Written ref w.server w.engine.fanout.channels [] x.0 x.1 x.2)
          (sym run1 ∙ run) t)
        v
  Step-IsServing _ _ (internal w e' s inside) v =
      engine-IsServing p w e' v (Step-Ready p recycled w.engine e' room s v.ready)
        (internal-AddsNone p recycled v.ready.0 w.engine e' s room v.ready.1 inside)

  Runs-IsServing : (w w' : World E) → Runs p recycled w w' → IsServing p w → IsServing p w'
  Runs-IsServing _ _ (done w) v = v
  Runs-IsServing _ _ (more w w' w'' s rest) v = Runs-IsServing w' w'' rest (Step-IsServing w w' s v)

start-IsServing :
    {E : Type 0} (p : Platform) (cfg : Ws.Config) (on_enter on_exit : Option (ℕ → String → List E))
    → IsServing p (start cfg on_enter on_exit)
unfolding start new_server new_engine new_fanout lookup
start-IsServing p cfg on_enter on_exit = record {
  ready = ([], new_engine-IsReady p on_enter on_exit);
  small = (omega arith, omega arith);
  subs = λ j h. refl;
  waiting = λ j h. refl;
  fresh = λ j h. refl;
  distinct = tt;
  conns = λ c j h. absurd (cc h);
  own = λ c d j h k. absurd (cc h);
}

-- Whatever steps the handlers of the connections, their write loops and the engine have taken since the
-- start, in whatever order, each packet, tick, subscription and disconnect as a whole and none within another,
-- with fewer than 2 ^ 64 connections: the subscriptions, the index and the channels
-- are in step, no two connections share an id, and the id of the next connection is nobody's and not
-- subscribed. A packet, a tick or an OnDisconnect that comes next, and runs as a whole, does not panic. The pooled buffer can
-- hold a record, and a seeded entity is new or stays in its cell.
pub always_serving :
    {E : Type 0} (p : Platform) (recycled : EgressBuffer) (cfg : Ws.Config)
    (on_enter on_exit : Option (ℕ → String → List E)) (w : World E)
    → 20 ≤ recycled.cap
    → Runs p recycled (start cfg on_enter on_exit) w
    → IsSound w.engine.fanout
      × ((c d j : ℕ) → lookup c w.server.conns ≡ some j → lookup d w.server.conns ≡ some j → c ≡ d)
      × ((conn c : ℕ)
          → w.server.sub_id + 1 < 2 ^ 64
          → (lookup (accept w.server conn).1 w.engine.fanout.subs ≡ none)
            × (lookup c w.server.conns ≢ some (accept w.server conn).1))
      × ((pkt : IngressPacket) (now : ℕ)
          → (r : Engine E × List E) × (process_packet p w.engine pkt now ≡ some r))
      × ((e' : Engine E) × (tick recycled w.engine ≡ some e'))
      × ((id : ℕ) → (e' : Engine E) × ((engine_callbacks p).on_disconnect w.engine id ≡ some e'))
unfolding accept engine_callbacks
always_serving p recycled cfg on_enter on_exit w room run =
    let v =
      Runs-IsServing p recycled room (start cfg on_enter on_exit) w run
        (start-IsServing p cfg on_enter on_exit) in
    let (fs, r) = v.ready in
    (
      r.sound,
      v.own,
      λ conn c few. (v.subs _ (omega (arith, few)), λ h. omega (arith, v.conns c _ h, few)),
      λ pkt now.
          let (e', effects, run', ok) = process_packet-Processed p fs w.engine pkt now r in
          ((e', effects), run'),
      (let (e', run', r', same) = tick-IsReady p fs recycled room w.engine r in (e', run')),
      λ id. let (e', run', r') = on_unsubscribe-IsReady p fs w.engine id r in (e', run'),
    )
