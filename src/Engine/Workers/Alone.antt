-- ===== src/Engine/Workers/Alone.antt =====
-- A worker that nothing interrupts.
use aerocast.Prelude.{
  ◌>>=◌, ℕ, zero, suc, ◌≡◌, ◌∙◌, refl, ap, Bool, [], append-nil, some, ltb, if◌then◌else◌, inl, inr,
  Bool-cases, Option-cases,
}
use aerocast.Float.{Platform}
use aerocast.Spatial.Grid.{route_with_previous, route}
use aerocast.Geofence.Evaluate.{evaluate_move}
use aerocast.Engine.Cms.{add_and_estimate}
use aerocast.Engine.Pipeline.{
  Engine, IngressPacket, last_position, same_position, process_packet, route_packet, routed_engine,
  count_dropped,
}
use aerocast.Engine.Workers.{
  Phase, idle, received, counted, fetched, refused, moving, advance, advance_all, is_some,
  follow_pointer,
}

module _ {E : Type 0} (p : Platform) (now : ℕ) where
  pub follow_pointer_fresh :
      (e : Engine E) (id : ℕ)
      → follow_pointer e id (is_some (last_position e id)) ≡ last_position e id
  follow_pointer_fresh e id = elim (Option-cases (last_position e id)) [
    | inl h ↦ rw h refl
    | inr (c, h) ↦ rw h refl
  ]

  -- From the test on, an entity whose packet is routed.
  moving_alone :
      (e : Engine E) (pkt : IngressPacket)
      → advance_all 5 p now e (moving pkt (is_some (last_position e pkt.entity_id)))
        ≡ (do r ← route_packet p e pkt (last_position e pkt.entity_id) now; some (r.0, idle, r.1))
  unfolding advance_all advance route_packet route_with_previous route
  moving_alone e pkt =
      rw (follow_pointer_fresh e pkt.entity_id)
        (elim (Option-cases (
          evaluate_move p e.evaluator e.fences pkt.entity_id (last_position e pkt.entity_id)
            pkt.coord now)) [
              | inl h ↦ rw h refl
              | inr (r, h) ↦ rw h (
                  ap
                    (λ effects.
                      some
                        (routed_engine p e pkt (last_position e pkt.entity_id) r.0, idle, effects))
                    (append-nil r.1))
            ])

  -- An access that calls nothing leaves the rest of the accesses.
  quiet_access :
      (n : ℕ) (e e' : Engine E) (ph next : Phase)
      → advance p now e ph ≡ some (e', next, [])
      → advance_all (suc n) p now e ph ≡ advance_all n p now e' next
  unfolding advance_all
  quiet_access n e e' ph next h = elim (Option-cases (advance_all n p now e' next)) [
    | inl k ↦ rw (h, k) refl
    | inr (r, k) ↦ rw (h, k) refl
  ]

  done_alone : (n : ℕ) (e : Engine E) → advance_all n p now e idle ≡ some (e, idle, [])
  unfolding advance_all advance
  done_alone zero e = refl
  done_alone (suc n) e = rw (done_alone n e) refl

  dropped_alone :
      (n : ℕ) (e : Engine E)
      → advance_all (suc n) p now e refused ≡ some (count_dropped e, idle, [])
  unfolding advance
  dropped_alone n e =
      quiet_access n e (count_dropped e) refused idle refl ∙ done_alone n (count_dropped e)

  -- From the fetch of the pointer on.
  counted_alone :
      (e : Engine E) (pkt : IngressPacket)
      → advance_all 7 p now e (counted pkt) ≡ (do
        r ←
            (if same_position (last_position e pkt.entity_id) pkt.coord
              then some (count_dropped e, [])
              else route_packet p e pkt (last_position e pkt.entity_id) now)
        some (r.0, idle, r.1))
  unfolding advance
  counted_alone e pkt =
      let found : Bool = is_some (last_position e pkt.entity_id) in
      let fetch = quiet_access 6 e e (counted pkt) (fetched pkt found) refl in
      elim (Bool-cases (same_position (last_position e pkt.entity_id) pkt.coord)) [
        | inl h ↦ rw h (
            fetch
            ∙ quiet_access 5 e e (fetched pkt found) refused
                (rw (follow_pointer_fresh e pkt.entity_id, h) refl)
            ∙ dropped_alone 4 e)
        | inr h ↦ rw h (
            fetch
            ∙ quiet_access 5 e e (fetched pkt found) (moving pkt found)
                (rw (follow_pointer_fresh e pkt.entity_id, h) refl)
            ∙ moving_alone e pkt)
      ]

  -- A worker that receives a packet and is not interrupted has done with it after at most eight accesses,
  -- and they are ProcessPacket: the same engine, the same effects, and a panic exactly if it panics.
  pub advance_all-process_packet :
      (e : Engine E) (pkt : IngressPacket)
      → advance_all 8 p now e (received pkt)
        ≡ (do r ← process_packet p e pkt now; some (r.0, idle, r.1))
  unfolding advance process_packet
  advance_all-process_packet e pkt =
      let e' : Engine E = record e { cms = (add_and_estimate e.cms pkt.entity_id).0 } in
      elim (Bool-cases (ltb 50 (add_and_estimate e.cms pkt.entity_id).1)) [
        | inl h ↦ rw h (quiet_access 7 e e' (received pkt) refused (rw h refl) ∙ dropped_alone 6 e')
        | inr h ↦
            rw h
              (quiet_access 7 e e' (received pkt) (counted pkt) (rw h refl) ∙ counted_alone e' pkt)
      ]
