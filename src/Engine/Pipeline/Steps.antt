-- ===== src/Engine/Pipeline/Steps.antt =====
-- Every operation of the engine as a step, and what holds after any sequence of steps.
use Prim.Native.String.{String}
use aerocast.Prelude.{
  ℕ, ◌%◌, ◌≤◌, ◌≡◌, ◌≢◌, ◌∙◌, refl, sym, ap, subst, fun_ext, List, [], ◌∷◌, ◌++◌, Option, none,
  some, arith,
}
use aerocast.Prelude.Assoc.{lookup, lookup-insert}
use aerocast.Binary.Codec.{CoordPacket}
use aerocast.Binary.Egress.{EgressBuffer}
use aerocast.Float.{Platform}
use aerocast.Spatial.Grid
use aerocast.Spatial.Grid.{EntityState, key_of, get, new_grid}
use aerocast.Spatial.Grid.Tracking.{Tracks, new_grid-Tracks, route-Tracks, get-Tracks}
use aerocast.Geofence.Fence.{Fence}
use aerocast.Geofence.Store.{Store, new_store, register, register_all}
use aerocast.Fanout.Subscribers.Index.{IsSound}
use aerocast.Fanout.Subscribers.Life.{
  new_fanout-IsSound, subscribe-IsSound, unsubscribe-IsSound, follow_keeps, unfollow_keeps,
}
use aerocast.Engine.Pipeline.{
  Engine, IngressPacket, last_position, process_packet, tick, new_engine, seed_position,
  on_subscribe, on_unsubscribe, on_follow, on_unfollow,
}
use aerocast.Engine.Pipeline.Ready.{IsReady, process_packet-Processed, last_position-set_position}
use aerocast.Engine.Pipeline.Tick.{tick-IsReady}

-- One operation on the engine. A subscriber comes with an id that is not in use, and a seeded entity is
-- new or stays in its cell.
pub data Step {E : Type 0} (p : Platform) (recycled : EgressBuffer)
    : Engine E → Engine E → Type 0 where
  packet :
      (e e' : Engine E) (pkt : IngressPacket) (now : ℕ) (effects : List E)
      → process_packet p e pkt now ≡ some (e', effects)
      → Step p recycled e e'
  ticked : (e e' : Engine E) → tick recycled e ≡ some e' → Step p recycled e e'
  seeded :
      (e : Engine E) (id lat lng : ℕ)
      → ((c : CoordPacket)
          → last_position e id ≡ some c
          → key_of p c ≡ key_of p (record { lng = lng; lat = lat }))
      → Step p recycled e (seed_position p e id lat lng)
  subscribed :
      (e : Engine E) (id lat lng radius_m : ℕ)
      → lookup id e.fanout.subs ≡ none
      → Step p recycled e (on_subscribe p e id lat lng radius_m)
  unsubscribed : (e e' : Engine E) (id : ℕ) → on_unsubscribe e id ≡ some e' → Step p recycled e e'
  followed : (e : Engine E) (id entity : ℕ) → Step p recycled e (on_follow e id entity)
  unfollowed : (e : Engine E) (id entity : ℕ) → Step p recycled e (on_unfollow e id entity)
  registered :
      (e : Engine E) (f : Fence) → Step p recycled e (record e { fences = register p e.fences f })

-- Any number of operations, one after the other.
pub data Runs {E : Type 0} (p : Platform) (recycled : EgressBuffer)
    : Engine E → Engine E → Type 0 where
  done : (e : Engine E) → Runs p recycled e e
  more :
      (e e' e'' : Engine E) → Step p recycled e e' → Runs p recycled e' e'' → Runs p recycled e e''

abbrev pub Ready : {E : Type 0} → Platform → Engine E → Type 0
Ready p e = (fs : List Fence) × IsReady p fs e

pub register_all-snoc :
    (p : Platform) (s : Store) (fs : List Fence) (f : Fence)
    → register p (register_all p s fs) f ≡ register_all p s (fs ++ (f ∷ []))
unfolding register_all
register_all-snoc p s [] f = refl
register_all-snoc p s (x ∷ fs) f = register_all-snoc p (register p s x) fs f

pub new_engine-IsReady :
    {E : Type 0} (p : Platform) (on_enter on_exit : Option (ℕ → String → List E))
    → IsReady p [] (new_engine on_enter on_exit)
unfolding new_engine register_all
new_engine-IsReady p on_enter on_exit = record {
  tracks = subst (Tracks p new_grid) (fun_ext nowhere) (new_grid-Tracks p);
  stored = refl;
  sound = new_fanout-IsSound;
}
  where
    nowhere : (j : ℕ) → none ≡ lookup {V = CoordPacket} j []
    nowhere j = unfold lookup in refl

seed_position-IsReady :
    {E : Type 0} (p : Platform) (fs : List Fence) (e : Engine E) (id lat lng : ℕ)
    → IsReady p fs e
    → ((c : CoordPacket)
        → last_position e id ≡ some c
        → key_of p c ≡ key_of p (record { lng = lng; lat = lat }))
    → IsReady p fs (seed_position p e id lat lng)
unfolding seed_position
seed_position-IsReady p fs e id lat lng r same = record {
  tracks =
      subst (Tracks p (Grid.route p e.grid id coord))
        (fun_ext (λ j. sym (last_position-set_position e.prev_pos id coord j)))
        (route-Tracks p e.grid (last_position e) id coord r.tracks same);
  stored = r.stored;
  sound = r.sound;
}
  where
    coord : CoordPacket
    coord = record { lng = lng; lat = lat }

-- Unsubscribing never panics on a ready engine.
pub on_unsubscribe-IsReady :
    {E : Type 0} (p : Platform) (fs : List Fence) (e : Engine E) (id : ℕ)
    → IsReady p fs e
    → (e' : Engine E) × (on_unsubscribe e id ≡ some e') × IsReady p fs e'
unfolding on_unsubscribe
on_unsubscribe-IsReady p fs e id r =
    let (fan, run, sound, subs, cells) = unsubscribe-IsSound e.fanout id r.sound in
    (
      record e { fanout = fan },
      rw run,
      record { tracks = r.tracks; stored = r.stored; sound = sound },
    )

-- The value of a computation that has two.
pub same_value :
    {A : Type 0} (P : A → Type 0) (o : Option A) (x y : A) → o ≡ some x → o ≡ some y → P x → P y
same_value P o x y h k = subst P (cc (h, k))

-- A step keeps the engine ready.
pub Step-Ready :
    {E : Type 0} (p : Platform) (recycled : EgressBuffer) (e e' : Engine E)
    → 20 ≤ recycled.cap
    → Step p recycled e e'
    → Ready p e
    → Ready p e'
Step-Ready p recycled _ _ room (packet e e' pkt now effects run) (fs, r) =
    let (e1, effects1, run1, ok) = process_packet-Processed p fs e pkt now r in
    (fs, same_value (λ x. IsReady p fs x.0) _ (e1, effects1) (e', effects) run1 run ok.ready)
Step-Ready p recycled _ _ room (ticked e e' run) (fs, r) =
    let (e1, run1, r1, same) = tick-IsReady p fs recycled room e r in
    (fs, same_value (IsReady p fs) _ e1 e' run1 run r1)
Step-Ready p recycled _ _ room (seeded e id lat lng same) (fs, r) =
    (fs, seed_position-IsReady p fs e id lat lng r same)
Step-Ready p recycled _ _ room (subscribed e id lat lng radius_m new) (fs, r) = (
  fs,
  unfold on_subscribe in
      record {
        tracks = r.tracks;
        stored = r.stored;
        sound = subscribe-IsSound p e.fanout id lat lng radius_m r.sound new;
      },
)
Step-Ready p recycled _ _ room (unsubscribed e e' id run) (fs, r) =
    let (e1, run1, r1) = on_unsubscribe-IsReady p fs e id r in
    (fs, same_value (IsReady p fs) _ e1 e' run1 run r1)
Step-Ready p recycled _ _ room (followed e id entity) (fs, r) = (
  fs,
  unfold on_follow in
      record {
        tracks = r.tracks;
        stored = r.stored;
        sound = follow_keeps e.fanout id entity r.sound;
      },
)
Step-Ready p recycled _ _ room (unfollowed e id entity) (fs, r) = (
  fs,
  unfold on_unfollow in
      record {
        tracks = r.tracks;
        stored = r.stored;
        sound = unfollow_keeps e.fanout id entity r.sound;
      },
)
Step-Ready p recycled _ _ room (registered e f) (fs, r) = (
  fs ++ (f ∷ []),
  record {
    tracks = r.tracks;
    stored = ap (λ s. register p s f) r.stored ∙ register_all-snoc p new_store fs f;
    sound = r.sound;
  },
)

Runs-Ready :
    {E : Type 0} (p : Platform) (recycled : EgressBuffer) (e e' : Engine E)
    → 20 ≤ recycled.cap
    → Runs p recycled e e'
    → Ready p e
    → Ready p e'
Runs-Ready p recycled _ _ room (done e) r = r
Runs-Ready p recycled _ _ room (more e e1 e' s rest) r =
    Runs-Ready p recycled e1 e' room rest (Step-Ready p recycled e e1 room s r)

-- From a new engine, after any sequence of operations: the grid holds each entity at its last position
-- and at no other place, the subscriptions are sound, and no packet, tick or unsubscription panics.
-- A subscriber comes with an id that is not in use, a seeded entity is new or stays in its cell, and the
-- pooled buffer can hold a record.
pub always_safe :
    {E : Type 0} (p : Platform) (recycled : EgressBuffer)
    (on_enter on_exit : Option (ℕ → String → List E)) (e : Engine E)
    → 20 ≤ recycled.cap
    → Runs p recycled (new_engine on_enter on_exit) e
    → Tracks p e.grid (last_position e)
      × IsSound e.fanout
      × ((id : ℕ)
          → get e.grid id
            ≡ elim (last_position e id) [ none ↦ none | some c ↦ some (record { coord = c }) ])
      × ((pkt : IngressPacket) (now : ℕ)
          → (r : Engine E × List E) × (process_packet p e pkt now ≡ some r))
      × ((e' : Engine E) × (tick recycled e ≡ some e'))
      × ((id : ℕ) → (e' : Engine E) × (on_unsubscribe e id ≡ some e'))
always_safe p recycled on_enter on_exit e room run =
    let (fs, r) =
      Runs-Ready p recycled (new_engine on_enter on_exit) e room run
        ([], new_engine-IsReady p on_enter on_exit) in
    (
      r.tracks,
      r.sound,
      λ id. get-Tracks p e.grid (last_position e) id r.tracks,
      λ pkt now.
          let (e', effects, run', ok) = process_packet-Processed p fs e pkt now r in
          ((e', effects), run'),
      (let (e', run', r', same) = tick-IsReady p fs recycled room e r in (e', run')),
      λ id. let (e', run', r') = on_unsubscribe-IsReady p fs e id r in (e', run'),
    )

-- SeedPosition of an entity whose last position is in another cell leaves the entity in the grid twice:
-- at the old position in the old cell, although that is no longer its last position, and at the new one.
pub seed_position_duplicates :
    {E : Type 0} (p : Platform) (fs : List Fence) (e : Engine E) (id lat lng : ℕ) (c : CoordPacket)
    → IsReady p fs e
    → last_position e id ≡ some c
    → key_of p c ≢ key_of p (record { lng = lng; lat = lat })
    → (last_position (seed_position p e id lat lng) id ≡ some (record { lng = lng; lat = lat }))
      × (lookup id (
            (seed_position p e id lat lng).grid
              (key_of p (record { lng = lng; lat = lat }))
              (id % 16))
          ≡ some (record { coord = record { lng = lng; lat = lat } }))
      × (lookup id ((seed_position p e id lat lng).grid (key_of p c) (id % 16))
          ≡ some (record { coord = c }))
unfolding seed_position Grid.route
seed_position_duplicates p fs e id lat lng c r h away = (
  ground (arith, last_position-set_position e.prev_pos id coord id),
  ground (arith, lookup-insert id id state (e.grid (key_of p coord) (id % 16))),
  ground (arith, away, r.tracks.placed (key_of p c) (id % 16) id, h),
)
  where
    coord : CoordPacket
    coord = record { lng = lng; lat = lat }

    state : EntityState
    state = record { coord = coord }
