-- ===== src/Engine/Workers/Local.antt =====
-- One access of a worker: it does not panic, and the phase after it fits.
use aerocast.Prelude.{
  ℕ, ◌+◌, ◌%◌, ◌^◌, length, ◌≡◌, ◌≢◌, ◌⊎◌, ◌∙◌, refl, sym, ap, Bool, List, [], none, some, inl, inr,
  ltb, Bool-cases,
}
use aerocast.Prelude.Array.{update, update_self, update_ne}
use aerocast.Float.{Platform}
use aerocast.Spatial.Grid.{key_of, leave_old, route}
use aerocast.Spatial.Grid.Tracking.{Tracks, route-Tracks}
use aerocast.Geofence.Fence.{Fence}
use aerocast.Geofence.Store.{new_store, register_all}
use aerocast.Geofence.Evaluate.{fire_callbacks}
use aerocast.Geofence.Evaluate.Events.{expected, evaluate_move-expected}
use aerocast.Engine.Cms.{add_and_estimate}
use aerocast.Engine.Pipeline.{Engine, last_position, same_position, count_dropped, set_position}
use aerocast.Engine.Pipeline.Ready.{last_position-set_position}
use aerocast.Engine.Hll
use aerocast.Engine.Workers
use aerocast.Engine.Workers.{
  Phase, idle, received, refused, counted, fetched, moving, left, entered, evaluated, entity_of,
  advance, is_some, follow_pointer,
}
use aerocast.Engine.Workers.Alone.{follow_pointer_fresh}
use aerocast.Engine.Workers.Fits.{Positions, Fits, given_up, leave_old-Tracks}

module _ {E : Type 0} (p : Platform) where
  -- An access: the grid holds the entities at the positions seen', and nothing has changed for other
  -- entities; the worker keeps its entity, or gives it up at its last position.
  pub record Advanced (seen seen' : Positions) (e e' : Engine E) (ph next : Phase) : Type 0 where
    pub tracks : Tracks p e'.grid seen'
    pub fits : Fits p seen' (last_position e') next
    pub others :
        (j : ℕ)
        → entity_of ph ≢ some j
        → (seen' j ≡ seen j) × (last_position e' j ≡ last_position e j)
    pub keeps :
        (entity_of next ≡ entity_of ph)
        ⊎ ((entity_of next ≡ none)
            × ((id : ℕ) → entity_of ph ≡ some id → seen' id ≡ last_position e' id))
    pub fences : e'.fences ≡ e.fences

  -- An access that leaves the grid and the positions.
  still :
      (seen : Positions) (e e' : Engine E) (ph next : Phase)
      → Tracks p e.grid seen
      → e'.grid ≡ e.grid
      → e'.prev_pos ≡ e.prev_pos
      → e'.fences ≡ e.fences
      → Fits p seen (last_position e) next
      → (entity_of next ≡ entity_of ph)
        ⊎ ((entity_of next ≡ none)
            × ((id : ℕ) → entity_of ph ≡ some id → seen id ≡ last_position e id))
      → Advanced seen seen e e' ph next
  still seen e e' ph next t grid positions fences fits keeps = record {
    tracks = rw grid t;
    fits = rw positions fits;
    others = λ j away. (refl, rw positions refl);
    keeps = rw positions keeps;
    fences = fences;
  }

  -- The callbacks that an access calls: those of the move from the last position, at EvaluateMove.
  abbrev pub calls : List Fence → ℕ → Engine E → Phase → List E
  calls fs now e (entered pkt found) =
      fire_callbacks e.evaluator
        (expected p pkt.entity_id (last_position e pkt.entity_id) pkt.coord now fs)
  calls fs now e ph = []

  -- A worker in a phase that fits makes its access without a panic, and the phase after it fits.
  pub advance-Advanced :
      (fs : List Fence) (seen : Positions) (now : ℕ) (e : Engine E) (ph : Phase)
      → Tracks p e.grid seen
      → e.fences ≡ register_all p new_store fs
      → Fits p seen (last_position e) ph
      → (seen' : Positions) × (e' : Engine E) × (next : Phase) × (advance p now e ph
          ≡ some (e', next, calls fs now e ph))
        × Advanced seen seen' e e' ph next
  unfolding advance count_dropped
  advance-Advanced fs seen now e idle t stored fits =
      (seen, e, idle, refl, still seen e e idle idle t refl refl refl tt (inl refl))
  advance-Advanced fs seen now e (received pkt) t stored fits =
      let e' : Engine E = record e { cms = (add_and_estimate e.cms pkt.entity_id).0 } in
      elim (Bool-cases (ltb 50 (add_and_estimate e.cms pkt.entity_id).1)) [
        | inl h ↦ (
          seen,
          e',
          refused,
          rw h refl,
          still seen e e' (received pkt) refused t refl refl refl tt
              (inr (refl, given_up seen (last_position e) pkt.entity_id fits)),
        )
        | inr h ↦ (
          seen,
          e',
          counted pkt,
          rw h refl,
          still seen e e' (received pkt) (counted pkt) t refl refl refl fits (inl refl),
        )
      ]
  advance-Advanced fs seen now e refused t stored fits = (
    seen,
    count_dropped e,
    idle,
    refl,
    still seen e (count_dropped e) refused idle t refl refl refl tt (inl refl),
  )
  advance-Advanced fs seen now e (counted pkt) t stored fits =
      let found : Bool = is_some (last_position e pkt.entity_id) in
      (
        seen,
        e,
        fetched pkt found,
        refl,
        still seen e e (counted pkt) (fetched pkt found) t refl refl refl
            (fits, follow_pointer_fresh p now e pkt.entity_id) (inl refl),
      )
  advance-Advanced fs seen now e (fetched pkt found) t stored (fits, follows) =
      elim (Bool-cases (same_position (follow_pointer e pkt.entity_id found) pkt.coord)) [
        | inl h ↦ (
          seen,
          e,
          refused,
          rw h refl,
          still seen e e (fetched pkt found) refused t refl refl refl tt
              (inr (refl, given_up seen (last_position e) pkt.entity_id fits)),
        )
        | inr h ↦ (
          seen,
          e,
          moving pkt found,
          rw h refl,
          still seen e e (fetched pkt found) (moving pkt found) t refl refl refl (fits, follows)
              (inl refl),
        )
      ]
  advance-Advanced fs seen now e (moving pkt found) t stored (fits, follows) =
      let (seen', t', leaves, others) = leave_old-Tracks p e.grid seen pkt t in
      (
        seen',
        record e {
          grid =
              leave_old p e.grid pkt.entity_id (key_of p pkt.coord)
                (follow_pointer e pkt.entity_id found);
        },
        left pkt found,
        refl,
        record {
          tracks = rw (follows, sym fits) t';
          fits = (leaves, follows);
          others = λ j away. (others j (λ h. away (ap some h)), refl);
          keeps = inl refl;
          fences = refl;
        },
      )
  advance-Advanced fs seen now e (left pkt found) t stored (leaves, follows) = (
    update seen pkt.entity_id (some pkt.coord),
    record e { grid = route p e.grid pkt.entity_id pkt.coord },
    entered pkt found,
    refl,
    record {
      tracks = route-Tracks p e.grid seen pkt.entity_id pkt.coord t leaves;
      fits = (update_self seen pkt.entity_id (some pkt.coord), follows);
      others =
          λ j away. (update_ne seen pkt.entity_id j (some pkt.coord) (λ h. away (ap some h)), refl);
      keeps = inl refl;
      fences = refl;
    },
  )
  advance-Advanced fs seen now e (entered pkt found) t stored (fits, follows) =
      let prev = last_position e pkt.entity_id in
      let events = expected p pkt.entity_id prev pkt.coord now fs in
      let e' : Engine E = record e { events_fired = (e.events_fired + length events) % 2 ^ 64 } in
      (
        seen,
        e',
        evaluated pkt,
        rw (stored, follows)
            (rw (evaluate_move-expected p e.evaluator fs pkt.entity_id prev pkt.coord now) refl),
        still seen e e' (entered pkt found) (evaluated pkt) t refl refl refl fits (inl refl),
      )
  advance-Advanced fs seen now e (evaluated pkt) t stored fits = (
    seen,
    record e { prev_pos = set_position e.prev_pos pkt.entity_id pkt.coord },
    Workers.stored pkt,
    refl,
    record {
      tracks = t;
      fits =
          fits
          ∙ sym (
              last_position-set_position e.prev_pos pkt.entity_id pkt.coord pkt.entity_id
              ∙ update_self (last_position e) pkt.entity_id (some pkt.coord));
      others = λ j away. (
        refl,
        last_position-set_position e.prev_pos pkt.entity_id pkt.coord j
            ∙ update_ne (last_position e) pkt.entity_id j (some pkt.coord) (λ h. away (ap some h)),
      );
      keeps = inl refl;
      fences = refl;
    },
  )
  advance-Advanced fs seen now e (Workers.stored pkt) t kept fits =
      let key : ℕ = key_of p pkt.coord in
      let e' : Engine E = record e {
        shard_hll = update e.shard_hll key (Hll.add (e.shard_hll key) pkt.entity_id);
        packets_routed = (e.packets_routed + 1) % 2 ^ 64;
      } in
      (
        seen,
        e',
        idle,
        refl,
        still seen e e' (Workers.stored pkt) idle t refl refl refl tt
            (inr (refl, given_up seen (last_position e) pkt.entity_id fits)),
      )
