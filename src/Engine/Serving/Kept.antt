-- ===== src/Engine/Serving/Kept.antt =====
-- The invariant of the server with the engine, and the steps that keep it.
use aerocast.Prelude.{
  ℕ, ◌+◌, ◌%◌, ◌^◌, ◌≤◌, ◌<◌, ◌≡◌, sym, subst, true, false, List, [], none, some, arith,
}
use aerocast.Prelude.Assoc.{
  lookup, Distinct, lookup-insert, lookup-delete, insert-Distinct, delete-Distinct,
}
use aerocast.Prelude.Array.{update}
use aerocast.Float.{Platform}
use aerocast.Geofence.Fence.{Fence}
use aerocast.Fanout.Channel.{ChannelManager}
use aerocast.Fanout.Subscribers.Extend.{rewire-IsSound}
use aerocast.Fanout.Subscribers.Life.{subscribe-IsSound, lookup-subscribe}
use aerocast.Transport.Ws.{Server, Query, accept, leave, subscribe_query}
use aerocast.Transport.Ws.Writer.{Written, Written-IsWired}
use aerocast.Engine.Pipeline.{Engine, on_subscribe}
use aerocast.Engine.Pipeline.Ready.{IsReady}
use aerocast.Engine.Pipeline.Steps.{Ready}
use aerocast.Engine.Serving.{World, engine_callbacks}

-- The engine is ready; an id that is subscribed, that waits for its subscription or that a connection has
-- was issued by the server; none waits that is subscribed, and no two connections have the same.
pub record IsServing {E : Type 0} (p : Platform) (w : World E) : Type 0 where
  pub ready : Ready p w.engine
  pub small : (w.server.sub_id < 2 ^ 64) × (w.server.broadcast_bytes < 2 ^ 64)
  pub subs : (j : ℕ) → w.server.sub_id < j → lookup j w.engine.fanout.subs ≡ none
  pub waiting : (j : ℕ) → w.server.sub_id < j → w.pending j ≡ false
  pub fresh : (j : ℕ) → w.pending j ≡ true → lookup j w.engine.fanout.subs ≡ none
  pub distinct : Distinct w.server.conns
  pub conns : (c j : ℕ) → lookup c w.server.conns ≡ some j → j ≤ w.server.sub_id
  pub own :
      (c d j : ℕ) → lookup c w.server.conns ≡ some j → lookup d w.server.conns ≡ some j → c ≡ d

-- The engine is replaced by a ready one with no more subscriptions.
pub engine-IsServing :
    {E : Type 0} (p : Platform) (w : World E) (e' : Engine E)
    → IsServing p w
    → Ready p e'
    → ((j : ℕ) → lookup j w.engine.fanout.subs ≡ none → lookup j e'.fanout.subs ≡ none)
    → IsServing p (record w { engine = e' })
engine-IsServing p w e' v r adds = record {
  ready = r;
  small = v.small;
  subs = λ j h. adds j (v.subs j h);
  waiting = v.waiting;
  fresh = λ j h. adds j (v.fresh j h);
  distinct = v.distinct;
  conns = v.conns;
  own = v.own;
}

pub accepted-IsServing :
    {E : Type 0} (p : Platform) (w : World E) (conn : ℕ)
    → w.server.sub_id + 1 < 2 ^ 64
    → IsServing p w
    → IsServing p (record w {
      server = (accept w.server conn).0;
      pending = update w.pending (accept w.server conn).1 true;
    })
unfolding accept
accepted-IsServing p w conn room v = record {
  ready = v.ready;
  small = (omega arith, v.small.1);
  subs = λ j h. v.subs j (omega (arith, h, room));
  waiting = λ j h. ground (arith, h, room, v.waiting j);
  fresh = λ j h. ground (arith, h, room, v.fresh j, v.subs j);
  distinct = insert-Distinct conn _ w.server.conns v.distinct;
  conns = λ c j h. ground (
    arith,
    room,
    lookup-insert conn c ((w.server.sub_id + 1) % 2 ^ 64) w.server.conns,
    v.conns c j,
  );
  own = λ c d j h k. ground (
    arith,
    room,
    lookup-insert conn c ((w.server.sub_id + 1) % 2 ^ 64) w.server.conns,
    lookup-insert conn d ((w.server.sub_id + 1) % 2 ^ 64) w.server.conns,
    v.conns c j,
    v.conns d j,
    v.own c d j,
  );
}

subscribed-IsServing :
    {E : Type 0} (p : Platform) (w : World E) (id lat lng radius_m : ℕ)
    → w.pending id ≡ true
    → IsServing p w
    → IsServing p (record w {
      engine = on_subscribe p w.engine id lat lng radius_m;
      pending = update w.pending id false;
    })
unfolding on_subscribe
subscribed-IsServing p w id lat lng radius_m waits v = record {
  ready = (
    v.ready.0,
    record {
      tracks = v.ready.1.tracks;
      stored = v.ready.1.stored;
      sound =
          subscribe-IsSound p w.engine.fanout id lat lng radius_m v.ready.1.sound
            (v.fresh id waits);
    },
  );
  small = v.small;
  subs = λ j h. ground (
    arith,
    lookup-subscribe p w.engine.fanout id lat lng radius_m j,
    v.subs j h,
    v.waiting j h,
    waits,
  );
  waiting = λ j h. ground (arith, v.waiting j h);
  fresh =
      λ j h. ground (arith, lookup-subscribe p w.engine.fanout id lat lng radius_m j, v.fresh j);
  distinct = v.distinct;
  conns = v.conns;
  own = v.own;
}

pub opened-IsServing :
    {E : Type 0} (p : Platform) (w : World E) (id : ℕ) (q : Query)
    → w.pending id ≡ true
    → IsServing p w
    → IsServing p (record w {
      engine = subscribe_query (engine_callbacks p) w.engine id q;
      pending = update w.pending id false;
    })
unfolding subscribe_query engine_callbacks
opened-IsServing p w id q waits v = subscribed-IsServing p w id _ _ _ waits v

pub left-IsServing :
    {E : Type 0} (p : Platform) (w : World E) (conn : ℕ)
    → IsServing p w
    → IsServing p (record w { server = leave w.server conn })
unfolding leave
left-IsServing p w conn v = record {
  ready = v.ready;
  small = v.small;
  subs = v.subs;
  waiting = v.waiting;
  fresh = v.fresh;
  distinct = delete-Distinct conn w.server.conns v.distinct;
  conns = λ c j h. ground (arith, lookup-delete conn c w.server.conns v.distinct, v.conns c j);
  own = λ c d j h k. ground (
    arith,
    lookup-delete conn c w.server.conns v.distinct,
    lookup-delete conn d w.server.conns v.distinct,
    v.own c d j,
  );
}

wrote_engine-IsReady :
    {E : Type 0} (p : Platform) (fs : List Fence) (e : Engine E) (ref : ℕ) (s s' : Server)
    (cm' : ChannelManager) (out : List (List ℕ))
    → IsReady p fs e
    → Written ref s e.fanout.channels [] s' cm' out
    → IsReady p fs (record e { fanout = record e.fanout { channels = cm' } })
wrote_engine-IsReady p fs e ref s s' cm' out r t = record {
  tracks = r.tracks;
  stored = r.stored;
  sound =
      rewire-IsSound e.fanout cm' r.sound
        (Written-IsWired ref s s' e.fanout.channels cm' [] out t r.sound.wired) t.map;
}

pub wrote-IsServing :
    {E : Type 0} (p : Platform) (w : World E) (ref : ℕ) (s' : Server) (cm' : ChannelManager)
    (out : List (List ℕ))
    → Written ref w.server w.engine.fanout.channels [] s' cm' out
    → IsServing p w
    → IsServing p
        (record w { server = s'; engine = (engine_callbacks p).set_channels w.engine cm' })
unfolding engine_callbacks
wrote-IsServing {E = E} p w ref s' cm' out t v =
    subst (λ s. IsServing p (record w { server = s; engine = e' })) (sym t.server)
      (record {
        ready = (
          v.ready.0,
          wrote_engine-IsReady p v.ready.0 w.engine ref w.server s' cm' out v.ready.1 t,
        );
        small = (v.small.0, omega (arith, t.counted));
        subs = v.subs;
        waiting = v.waiting;
        fresh = v.fresh;
        distinct = v.distinct;
        conns = v.conns;
        own = v.own;
      })
  where
    e' : Engine E
    e' = record w.engine { fanout = record w.engine.fanout { channels = cm' } }
