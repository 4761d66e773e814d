-- ===== src/Engine/Serving/Connection.antt =====
-- A connection from its upgrade to its end.
use aerocast.Prelude.{
  ℕ, ◌+◌, ◌%◌, ◌^◌, ◌≡◌, ◌∙◌, refl, ap, true, List, [], Option, none, some, ◌==◌, if◌then◌else◌,
  arith,
}
use aerocast.Prelude.Assoc.{lookup, insert, Distinct, lookup-insert, lookup-delete, insert-Distinct}
use aerocast.Prelude.Count.{count}
use aerocast.Float.{Platform}
use aerocast.Fanout.Subscribers.Index.{IsSound}
use aerocast.Fanout.Subscribers.Life.{subscribe-IsSound, lookup-subscribe}
use aerocast.Fanout.Subscribers.Leave.{unsubscribe-Left, subscribe-Left, without_once}
use aerocast.Transport.Ws.{Server, Query, accept, leave, subscribe_query, read_loop, handle_ws}
use aerocast.Engine.Pipeline.{Engine, on_subscribe, on_unsubscribe}
use aerocast.Engine.Serving.{engine_callbacks}

-- What stays after a connection has gone.
pub record Gone {E : Type 0} (s : Server) (e : Engine E) (conn : ℕ) (s' : Server) (e' : Engine E)
    : Type 0 where
  pub sound : IsSound e'.fanout
  pub subs : (j : ℕ) → lookup j e'.fanout.subs ≡ lookup j e.fanout.subs
  pub cells : (cell : ℕ) → count s'.sub_id (e'.fanout.cell_index cell) ≡ 0
  pub chans :
      (j : ℕ)
      → lookup j e'.fanout.channels.chans
        ≡ (if s'.sub_id == j then none else lookup j e.fanout.channels.chans)
  pub heap :
      (ref : ℕ)
      → e'.fanout.channels.heap ref ≡ (
          if e.fanout.channels.next_ref == ref
          then record { frames = []; closed = true }
          else e.fanout.channels.heap ref)
  pub conns : (c : ℕ) → lookup c s'.conns ≡ (if conn == c then none else lookup c s.conns)
  pub total : s'.total_conns ≡ (s.total_conns + 1) % 2 ^ 64
  pub rest : e' ≡ record e { fanout = e'.fanout }

-- OnSubscribe and then OnDisconnect of a new id.
come_and_go :
    {E : Type 0} (p : Platform) (e : Engine E) (id lat lng radius_m : ℕ)
    → IsSound e.fanout
    → lookup id e.fanout.subs ≡ none
    → (e' : Engine E) × (on_unsubscribe (on_subscribe p e id lat lng radius_m) id ≡ some e')
      × IsSound e'.fanout
      × ((j : ℕ) → lookup j e'.fanout.subs ≡ lookup j e.fanout.subs)
      × ((cell : ℕ) → count id (e'.fanout.cell_index cell) ≡ 0)
      × ((j : ℕ)
          → lookup j e'.fanout.channels.chans
            ≡ (if id == j then none else lookup j e.fanout.channels.chans))
      × ((ref : ℕ)
          → e'.fanout.channels.heap ref ≡ (
              if e.fanout.channels.next_ref == ref
              then record { frames = []; closed = true }
              else e.fanout.channels.heap ref))
      × (e' ≡ record e { fanout = e'.fanout })
unfolding on_subscribe on_unsubscribe
come_and_go p e id lat lng radius_m s new =
    let (fan, run, left) =
      unsubscribe-Left _ id (subscribe-IsSound p e.fanout id lat lng radius_m s new) in
    let (chans, heap) = subscribe-Left p e.fanout fan id lat lng radius_m new left in
    (
      record e { fanout = fan },
      rw run refl,
      left.sound,
      λ j. ground (arith, left.subs j, lookup-subscribe p e.fanout id lat lng radius_m j, new),
      λ cell. ap (count id) (left.cells cell) ∙ without_once id _,
      chans,
      heap,
      refl,
    )

come_and_go_query :
    {E : Type 0} (p : Platform) (e : Engine E) (id : ℕ) (q : Query)
    → IsSound e.fanout
    → lookup id e.fanout.subs ≡ none
    → (e' : Engine E) × ((engine_callbacks p).on_disconnect
          (subscribe_query (engine_callbacks p) e id q)
          id
        ≡ some e')
      × IsSound e'.fanout
      × ((j : ℕ) → lookup j e'.fanout.subs ≡ lookup j e.fanout.subs)
      × ((cell : ℕ) → count id (e'.fanout.cell_index cell) ≡ 0)
      × ((j : ℕ)
          → lookup j e'.fanout.channels.chans
            ≡ (if id == j then none else lookup j e.fanout.channels.chans))
      × ((ref : ℕ)
          → e'.fanout.channels.heap ref ≡ (
              if e.fanout.channels.next_ref == ref
              then record { frames = []; closed = true }
              else e.fanout.channels.heap ref))
      × (e' ≡ record e { fanout = e'.fanout })
unfolding subscribe_query engine_callbacks
come_and_go_query p e id q s new = come_and_go p e id _ _ _ s new

-- The handler of a connection whose reads end, on an engine whose subscriptions are in step, with an id that is not
-- subscribed: it never panics, and leaves neither the connection nor a subscription nor an entry of the index nor
-- a channel of its id behind, whatever the client has sent; the channel that it was given is closed. The other
-- connections, subscriptions and channels are as they were.
pub handle_ws-Gone :
    {E : Type 0} (p : Platform) (s : Server) (e : Engine E) (conn : ℕ) (q : Query)
    (reads : List (Option (List ℕ)))
    → IsSound e.fanout
    → lookup ((s.sub_id + 1) % 2 ^ 64) e.fanout.subs ≡ none
    → Distinct s.conns
    → read_loop reads ≡ true
    → (s' : Server) × (e' : Engine E) × (handle_ws (engine_callbacks p) s e (some conn) q reads
        ≡ some (s', e'))
      × Gone s e conn s' e'
unfolding handle_ws accept leave
handle_ws-Gone p s e conn q reads sound new distinct ends =
    let (e', run, sound', subs, cells, chans, heap, rest) =
      come_and_go_query p e ((s.sub_id + 1) % 2 ^ 64) q sound new in
    (
      leave (accept s conn).0 conn,
      e',
      rw ends (rw run refl),
      record {
        sound = sound';
        subs = subs;
        cells = cells;
        chans = chans;
        heap = heap;
        conns = λ c. ground (
          arith,
          lookup-delete conn c (insert conn ((s.sub_id + 1) % 2 ^ 64) s.conns)
              (insert-Distinct conn ((s.sub_id + 1) % 2 ^ 64) s.conns distinct),
          lookup-insert conn c ((s.sub_id + 1) % 2 ^ 64) s.conns,
        );
        total = refl;
        rest = rest;
      },
    )
