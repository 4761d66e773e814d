-- ===== src/Engine/Serving.antt =====
-- pkg/engine/callbacks.go as the Callbacks of pkg/transport/ws/ws.go, and the WebSocket server with the
-- engine behind it: the handlers of the connections, their write loops and the engine's own operations, each step
-- as a whole. A packet, a tick with all its broadcasts, a subscription and its end are one step each, so that no
-- disconnect falls into a broadcast; Fanout/Subscribers/Race treats that.
pub mod Issued
pub mod Kept
pub mod Safe
pub mod Connection
mod Tests
use Prim.Native.String.{String}
use aerocast.Prelude.{ℕ, ◌+◌, ◌^◌, ◌<◌, ◌≡◌, Bool, true, false, List, [], Option, none, some}
use aerocast.Prelude.Array.{update}
use aerocast.Binary.Egress.{EgressBuffer}
use aerocast.Float.{Platform}
use aerocast.Fanout.Channel.{ChannelManager}
use aerocast.Transport.Ws
use aerocast.Transport.Ws.{
  Server, Callbacks, Query, Event, new_server, accept, subscribe_query, leave, write_rounds,
}
use aerocast.Engine.Pipeline.{Engine, new_engine, on_subscribe, on_unsubscribe}
use aerocast.Engine.Pipeline.Steps
use aerocast.Engine.Pipeline.Steps.{
  packet, ticked, seeded, subscribed, unsubscribed, followed, unfollowed, registered,
}

module _ {E : Type 0} where
  set_channels : Engine E → ChannelManager → Engine E
  set_channels e cm = record e { fanout = record e.fanout { channels = cm } }

  -- The engine as the Callbacks of the server that NewEngine makes.
  unfoldable pub engine_callbacks : Platform → Callbacks (Engine E)
  unfolding set_channels
  engine_callbacks p = record {
    on_subscribe = on_subscribe p;
    on_disconnect = on_unsubscribe;
    channels = λ e. e.fanout.channels;
    set_channels = set_channels;
  }

-- `pending` are the ids whose handler has not called OnSubscribe yet.
pub record World (E : Type 0) : Type 0 where
  pub server : Server
  pub engine : Engine E
  pub pending : ℕ → Bool

unfoldable pub start :
    {E : Type 0} → Ws.Config → Option (ℕ → String → List E) → Option (ℕ → String → List E) → World E
start cfg on_enter on_exit = record {
  server = new_server cfg;
  engine = new_engine on_enter on_exit;
  pending = λ id. false;
}

-- A step that is not a subscription; only the server subscribes.
abbrev pub IsInternal :
    {E : Type 0} {p : Platform} {recycled : EgressBuffer} {e e' : Engine E}
    → Steps.Step p recycled e e'
    → Type 0
IsInternal (packet e e' pkt now effects run) = Unit {0}
IsInternal (ticked e e' run) = Unit {0}
IsInternal (seeded e id lat lng same) = Unit {0}
IsInternal (subscribed e id lat lng radius_m new) = ⊥
IsInternal (unsubscribed e e' id run) = Unit {0}
IsInternal (followed e id entity) = Unit {0}
IsInternal (unfollowed e id entity) = Unit {0}
IsInternal (registered e f) = Unit {0}

-- The handler of a connection takes the steps `accepted`, `opened`, `left` and `disconnected`, in this order;
-- `wrote` is any number of rounds of a write loop. The steps follow each other in any order, and none begins
-- before another has ended. Fewer than 2 ^ 64 connections are accepted.
pub data Step {E : Type 0} (p : Platform) (recycled : EgressBuffer)
    : World E → World E → Type 0 where
  accepted :
      (w : World E) (conn : ℕ)
      → w.server.sub_id + 1 < 2 ^ 64
      → Step p recycled w (record w {
        server = (accept w.server conn).0;
        pending = update w.pending (accept w.server conn).1 true;
      })
  opened :
      (w : World E) (id : ℕ) (q : Query)
      → w.pending id ≡ true
      → Step p recycled w (record w {
        engine = subscribe_query (engine_callbacks p) w.engine id q;
        pending = update w.pending id false;
      })
  left : (w : World E) (conn : ℕ) → Step p recycled w (record w { server = leave w.server conn })
  disconnected :
      (w : World E) (id : ℕ) (e' : Engine E)
      → (engine_callbacks p).on_disconnect w.engine id ≡ some e'
      → Step p recycled w (record w { engine = e' })
  wrote :
      (w : World E) (events : List Event) (ref : ℕ) (s' : Server) (cm' : ChannelManager)
      (out : List (List ℕ)) (stopped : Bool)
      → write_rounds events ref w.server ((engine_callbacks p).channels w.engine) []
        ≡ (s', cm', out, stopped)
      → Step p recycled w
          (record w { server = s'; engine = (engine_callbacks p).set_channels w.engine cm' })
  internal :
      (w : World E) (e' : Engine E) (s : Steps.Step p recycled w.engine e')
      → IsInternal s
      → Step p recycled w (record w { engine = e' })

-- Any number of steps, one after the other.
pub data Runs {E : Type 0} (p : Platform) (recycled : EgressBuffer)
    : World E → World E → Type 0 where
  done : (w : World E) → Runs p recycled w w
  more :
      (w w' w'' : World E) → Step p recycled w w' → Runs p recycled w' w'' → Runs p recycled w w''
