-- ===== src/Engine/Serving/Tests.antt =====
-- The server in front of the engine, with one connection.
use aerocast.Prelude.{
  ℕ, ◌+◌, ◌%◌, ◌^◌, ◌<◌, ◌≡◌, ◌≢◌, refl, true, false, List, [], ◌∷◌, Option, none, some, arith,
}
use aerocast.Prelude.Assoc.{lookup, Distinct}
use aerocast.Prelude.Array.{update}
use aerocast.Binary.Egress.{EgressBuffer}
use aerocast.Float.Samples.{flat, bay_lat, bay_lng}
use aerocast.Fanout.Subscribers.{new_fanout}
use aerocast.Fanout.Subscribers.Index.{IsSound}
use aerocast.Fanout.Subscribers.Life.{new_fanout-IsSound}
use aerocast.Transport.Ws
use aerocast.Transport.Ws.{Server, Query, accept, new_server, subscribe_query, read_loop, handle_ws}
use aerocast.Engine.Pipeline.{Engine, IngressPacket, new_engine, process_packet, tick}
use aerocast.Engine.Serving.{World, Runs, done, more, accepted, opened, start, engine_callbacks}
use aerocast.Engine.Serving.Connection.{Gone, handle_ws-Gone}
use aerocast.Engine.Serving.Safe.{always_serving}

abbrev pooled : EgressBuffer
pooled = record { bytes = []; n = 0; cap = 4096 }

abbrev fresh : World ℕ
fresh = start Ws.default_config none none

abbrev connected : World ℕ
connected = record fresh {
  server = (accept fresh.server 77).0;
  pending = update fresh.pending (accept fresh.server 77).1 true;
}

abbrev query : Query
query = record { lat = some bay_lat; lng = some bay_lng; radius = none }

abbrev served : World ℕ
served = record connected {
  engine = subscribe_query (engine_callbacks flat) connected.engine 1 query;
  pending = update connected.pending 1 false;
}

few : fresh.server.sub_id + 1 < 2 ^ 64
unfolding start new_server
few = omega arith

waits : connected.pending 1 ≡ true
unfolding start new_server accept
waits = refl

one_connection : Runs flat pooled fresh served
one_connection =
    more fresh connected served (accepted fresh 77 few)
      (more connected served served (opened connected 1 query waits) (done served))

always_serving_example :
    IsSound served.engine.fanout
    × ((c d j : ℕ)
        → lookup c served.server.conns ≡ some j
        → lookup d served.server.conns ≡ some j
        → c ≡ d)
    × ((conn c : ℕ)
        → served.server.sub_id + 1 < 2 ^ 64
        → (lookup (accept served.server conn).1 served.engine.fanout.subs ≡ none)
          × (lookup c served.server.conns ≢ some (accept served.server conn).1))
    × ((pkt : IngressPacket) (now : ℕ)
        → (r : Engine ℕ × List ℕ) × (process_packet flat served.engine pkt now ≡ some r))
    × ((e' : Engine ℕ) × (tick pooled served.engine ≡ some e'))
    × ((id : ℕ)
        → (e' : Engine ℕ) × ((engine_callbacks flat).on_disconnect served.engine id ≡ some e'))
always_serving_example =
    always_serving flat pooled Ws.default_config none none served (omega arith) one_connection

no_one-IsSound : IsSound fresh.engine.fanout
unfolding start new_engine
no_one-IsSound = new_fanout-IsSound

unused : lookup ((fresh.server.sub_id + 1) % 2 ^ 64) fresh.engine.fanout.subs ≡ none
unfolding start new_engine new_fanout lookup
unused = refl

no_conns : Distinct fresh.server.conns
unfolding start new_server
no_conns = tt

-- Two messages, and the end.
abbrev reads : List (Option (List ℕ))
reads = some (2 ∷ []) ∷ some (3 ∷ []) ∷ none ∷ []

reads_end : read_loop reads ≡ true
unfolding read_loop
reads_end = refl

handle_ws-Gone_example :
    (s' : Server) × (e' : Engine ℕ) × (handle_ws
        (engine_callbacks flat)
        fresh.server
        fresh.engine
        (some 77)
        query
        reads
      ≡ some (s', e'))
    × Gone fresh.server fresh.engine 77 s' e'
handle_ws-Gone_example =
    handle_ws-Gone flat fresh.server fresh.engine 77 query reads no_one-IsSound unused no_conns
      reads_end
