-- ===== src/Engine/Pipeline/Ready.antt =====
-- The invariant of the engine and the operations of the pipeline that keep it.
use aerocast.Prelude.{
  ℕ, ◌+◌, ◌%◌, ◌^◌, ◌≡◌, ◌∙◌, refl, sym, ap, subst, fun_ext, Bool, true, false, not, ◌&&◌, List, [],
  some, ltb, ◌==◌, if◌then◌else◌, arith, Bool-cases, inl, inr,
}
use aerocast.Prelude.Assoc.{lookup, lookup-insert}
use aerocast.Prelude.Array.{update}
use aerocast.Binary.Codec.{CoordPacket}
use aerocast.Float.{Platform}
use aerocast.Spatial.Grid.{route_with_previous}
use aerocast.Spatial.Grid.Tracking.{Tracks, route_with_previous-Tracks}
use aerocast.Geofence.Fence.{Fence}
use aerocast.Geofence.Store.{new_store, register_all}
use aerocast.Geofence.Evaluate.{Evaluator, FenceEvent, fire_callbacks}
use aerocast.Geofence.Evaluate.Events.{expected, evaluate_move-expected}
use aerocast.Fanout.Subscribers.Index.{IsSound}
use aerocast.Engine.Cms.{add_and_estimate}
use aerocast.Engine.Pipeline.{
  Engine, IngressPacket, last_position, set_position, same_position, process_packet, route_packet,
  count_dropped, routed_engine,
}

-- The grid holds the last position of every entity, the store holds these fences, and the
-- subscriptions are sound.
pub record IsReady {E : Type 0} (p : Platform) (fs : List Fence) (e : Engine E) : Type 0 where
  pub tracks : Tracks p e.grid (last_position e)
  pub stored : e.fences ≡ register_all p new_store fs
  pub sound : IsSound e.fanout

pub last_position-set_position :
    (prev_pos : ℕ → List (ℕ × CoordPacket)) (id : ℕ) (coord : CoordPacket) (j : ℕ)
    → lookup j (set_position prev_pos id coord (j % 128))
      ≡ update (λ i. lookup i (prev_pos (i % 128))) id (some coord) j
last_position-set_position prev_pos id coord j =
    ground (arith, lookup-insert id j coord (prev_pos (id % 128)))

module _ {E : Type 0} (p : Platform) (fs : List Fence) where
  -- Whether ProcessPacket routes a packet: the entity is within its limit of 50 a tick and the position
  -- is not the last one.
  abbrev pub accepts : Engine E → IngressPacket → Bool
  accepts e pkt =
      not (ltb 50 (add_and_estimate e.cms pkt.entity_id).1)
      && not (same_position (last_position e pkt.entity_id) pkt.coord)

  abbrev pub events_of : Engine E → IngressPacket → ℕ → List FenceEvent
  events_of e pkt now =
      if accepts e pkt
      then expected p pkt.entity_id (last_position e pkt.entity_id) pkt.coord now fs
      else []

  -- What ProcessPacket does: a packet that is routed becomes its entity's last position, and every packet
  -- is counted once, as routed or as dropped.
  pub record Processed (e : Engine E) (pkt : IngressPacket) (now : ℕ) (e' : Engine E)
      (effects : List E) : Type 0 where
    pub ready : IsReady p fs e'
    pub positions :
        (j : ℕ)
        → last_position e' j
          ≡ (if accepts e pkt && (pkt.entity_id == j) then some pkt.coord else last_position e j)
    pub routed :
        e'.packets_routed
        ≡ (if accepts e pkt then (e.packets_routed + 1) % 2 ^ 64 else e.packets_routed)
    pub dropped :
        e'.packets_dropped
        ≡ (if accepts e pkt then e.packets_dropped else (e.packets_dropped + 1) % 2 ^ 64)
    pub fired : effects ≡ fire_callbacks e.evaluator (events_of e pkt now)
    pub evaluator : e'.evaluator ≡ e.evaluator
    pub fanout : e'.fanout ≡ e.fanout
    pub limiter : e'.cms ≡ (add_and_estimate e.cms pkt.entity_id).0

  none_of :
      (e : Engine E) (pkt : IngressPacket) (now : ℕ)
      → accepts e pkt ≡ false
      → events_of e pkt now ≡ []
  none_of e pkt now refused = rw refused

  fire_nothing : (ev : Evaluator E) → fire_callbacks ev [] ≡ []
  unfolding fire_callbacks
  fire_nothing ev = refl

  dropped-Processed :
      (e : Engine E) (pkt : IngressPacket) (now : ℕ)
      → IsReady p fs e
      → accepts e pkt ≡ false
      → Processed e pkt now
          (count_dropped (record e { cms = (add_and_estimate e.cms pkt.entity_id).0 }))
          []
  unfolding count_dropped
  dropped-Processed e pkt now r refused = record {
    ready = record { tracks = r.tracks; stored = r.stored; sound = r.sound };
    positions = λ j. ground (arith, refused);
    routed = ground (arith, refused);
    dropped = ground (arith, refused);
    fired =
        sym
          (ap (fire_callbacks e.evaluator) (none_of e pkt now refused) ∙ fire_nothing e.evaluator);
    evaluator = refl;
    fanout = refl;
    limiter = refl;
  }

  routed-Processed :
      (e : Engine E) (pkt : IngressPacket) (now : ℕ)
      → IsReady p fs e
      → accepts e pkt ≡ true
      → let events = expected p pkt.entity_id (last_position e pkt.entity_id) pkt.coord now fs in
        Processed e pkt now
          (routed_engine p
            (record e { cms = (add_and_estimate e.cms pkt.entity_id).0 })
            pkt
            (last_position e pkt.entity_id)
            events)
          (fire_callbacks e.evaluator events)
  routed-Processed e pkt now r taken = record {
    ready = record {
      tracks =
          subst (Tracks p (route_with_previous p e.grid id pkt.coord (last_position e id)).0)
            (fun_ext (λ j. sym (last_position-set_position e.prev_pos id pkt.coord j)))
            (route_with_previous-Tracks p e.grid (last_position e) id pkt.coord r.tracks);
      stored = r.stored;
      sound = r.sound;
    };
    positions = λ j. last_position-set_position e.prev_pos id pkt.coord j ∙ ground (arith, taken);
    routed = ground (arith, taken);
    dropped = ground (arith, taken);
    fired = ap (fire_callbacks e.evaluator) (rw taken);
    evaluator = refl;
    fanout = refl;
    limiter = refl;
  }
    where
      id : ℕ
      id = pkt.entity_id

  -- ProcessPacket never panics on a ready engine, and keeps it ready. A packet that is taken becomes its
  -- entity's last position, fires the callbacks with the events of its move, and counts as routed; any
  -- other packet leaves the positions, calls nothing, and counts as dropped. Both are counted by the
  -- sketch.
  pub process_packet-Processed :
      (e : Engine E) (pkt : IngressPacket) (now : ℕ)
      → IsReady p fs e
      → (e' : Engine E) × (effects : List E) × (process_packet p e pkt now ≡ some (e', effects))
        × Processed e pkt now e' effects
  unfolding process_packet route_packet
  process_packet-Processed e pkt now r =
      elim (Bool-cases (ltb 50 (add_and_estimate e.cms pkt.entity_id).1)) [
        | inl limited ↦ (
          count_dropped (record e { cms = (add_and_estimate e.cms pkt.entity_id).0 }),
          [],
          rw limited,
          dropped-Processed e pkt now r (ground (arith, limited)),
        )
        | inr within ↦ elim (Bool-cases (same_position (last_position e pkt.entity_id) pkt.coord)) [
          | inl same ↦ (
            count_dropped (record e { cms = (add_and_estimate e.cms pkt.entity_id).0 }),
            [],
            rw (within, same),
            dropped-Processed e pkt now r (ground (arith, same)),
          )
          | inr moved ↦
              let events =
                expected p pkt.entity_id (last_position e pkt.entity_id) pkt.coord now fs in
              (
                routed_engine p (record e { cms = (add_and_estimate e.cms pkt.entity_id).0 }) pkt
                    (last_position e pkt.entity_id) events,
                fire_callbacks e.evaluator events,
                rw (within, moved)
                    (rw (
                      r.stored,
                      evaluate_move-expected p e.evaluator fs pkt.entity_id
                          (last_position e pkt.entity_id) pkt.coord now,
                    )),
                routed-Processed e pkt now r (ground (arith, within, moved)),
              )
        ]
      ]
