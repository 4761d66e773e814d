-- ===== src/Clients/Web/Simulated.antt =====
-- What the simulation of examples/basic_web does to the engine.
use aerocast.Prelude.{
  ℕ, zero, suc, ◌+◌, ◌*◌, ◌%◌, ◌^◌, ◌≡◌, ◌∙◌, refl, ap, List, [], ◌∷◌, ◌++◌, length, some, arith,
}
use aerocast.Float.{Platform}
use aerocast.Geofence.Fence.{Fence}
use aerocast.Engine.Pipeline.{Engine, IngressPacket, process_all}
use aerocast.Engine.Pipeline.Ready.{IsReady, process_packet-Processed}
use aerocast.Engine.Pipeline.Steps.{same_value}
use aerocast.Engine.Pipeline.Limits.{process_all_counts}
use aerocast.Facade.{publish}
use aerocast.Clients.Web.{
  Entity, packet_of, move, entities_loop, make_entities, simulate_round, simulate_loop,
}

-- The packets of the moved entities.
round_packets : ℕ → (ℕ → ℕ) → List Entity → List IngressPacket
unfolding move
round_packets now rand [] = []
round_packets now rand (x ∷ entities) =
    packet_of (move rand x) now ∷ round_packets now rand entities

length-round_packets :
    (now : ℕ) (rand : ℕ → ℕ) (entities : List Entity)
    → length (round_packets now rand entities) ≡ length entities
unfolding round_packets
length-round_packets now rand [] = refl
length-round_packets now rand (x ∷ entities) = ap suc (length-round_packets now rand entities)

-- The rounds before, with one more.
rounds_sum :
    (a b c n k : ℕ)
    → b % 2 ^ 64 ≡ (a + n) % 2 ^ 64
    → c % 2 ^ 64 ≡ (b + n * k) % 2 ^ 64
    → c % 2 ^ 64 ≡ (a + n * suc k) % 2 ^ 64
rounds_sum a b c n k h m = omega (arith, h, m)

module _ {E : Type 0} (p : Platform) (now : ℕ) where
  -- A round is a worker's loop over the packets of the moved entities.
  round-process_all :
      (fs : List Fence) (rand : ℕ → ℕ) (entities : List Entity) (e : Engine E)
      → IsReady p fs e
      → (moved : List Entity) × (e' : Engine E) × (effects : List E) × (simulate_round p now rand
            entities e
          ≡ some (moved, e', effects))
        × (process_all p e (round_packets now rand entities) now ≡ some (e', effects))
        × (length moved ≡ length entities)
  unfolding simulate_round process_all publish round_packets
  round-process_all fs rand [] e r = ([], e, [], refl, refl, refl)
  round-process_all fs rand (x ∷ entities) e r =
      let (e1, effects1, run1, ok) =
        process_packet-Processed p fs e (packet_of (move rand x) now) now r in
      let (moved, e2, effects2, run2, all2, len) = round-process_all fs rand entities e1 ok.ready in
      (
        move rand x ∷ moved,
        e2,
        effects1 ++ effects2,
        rw (run1, run2) refl,
        rw (run1, all2) refl,
        ap suc len,
      )

  round-IsReady :
      (fs : List Fence) (rand : ℕ → ℕ) (entities : List Entity) (e : Engine E)
      → IsReady p fs e
      → (moved : List Entity) × (e' : Engine E) × (effects : List E) × (simulate_round p now rand
            entities e
          ≡ some (moved, e', effects))
        × IsReady p fs e'
        × ((e'.packets_routed + e'.packets_dropped) % 2 ^ 64
            ≡ (e.packets_routed + e.packets_dropped + length entities) % 2 ^ 64)
        × (length moved ≡ length entities)
  round-IsReady fs rand entities e r =
      let (moved, e', effects, run, all, len) = round-process_all fs rand entities e r in
      let (e1, effects1, run1, ready, counts, fan) =
        process_all_counts p fs e (round_packets now rand entities) now r in
      let (ready', counts') =
        same_value {A = Engine E × List E}
          (λ t.
            IsReady p fs t.0
            × ((t.0.packets_routed + t.0.packets_dropped) % 2 ^ 64
                ≡ (e.packets_routed + e.packets_dropped + length (round_packets now rand entities))
                  % 2 ^ 64))
          (process_all p e (round_packets now rand entities) now) (e1, effects1) (e', effects) run1
          all (ready, counts) in
      (
        moved,
        e',
        effects,
        run,
        ready',
        counts'
            ∙ ap (λ n. (e.packets_routed + e.packets_dropped + n) % 2 ^ 64)
                (length-round_packets now rand entities),
        len,
      )

  loop-IsReady :
      (fs : List Fence) (ticks : List (ℕ → ℕ)) (entities : List Entity) (e : Engine E)
      → IsReady p fs e
      → (moved : List Entity) × (e' : Engine E) × (effects : List E) × (simulate_loop p now ticks
            entities e
          ≡ some (moved, e', effects))
        × IsReady p fs e'
        × ((e'.packets_routed + e'.packets_dropped) % 2 ^ 64
            ≡ (e.packets_routed + e.packets_dropped + length entities * length ticks) % 2 ^ 64)
        × (length moved ≡ length entities)
  unfolding simulate_loop
  loop-IsReady fs [] entities e r = (entities, e, [], refl, r, omega arith, refl)
  loop-IsReady fs (rand ∷ ticks) entities e r =
      let (moved1, e1, effects1, run1, r1, counts1, len1) = round-IsReady fs rand entities e r in
      let (moved2, e2, effects2, run2, r2, counts2, len2) = loop-IsReady fs ticks moved1 e1 r1 in
      (
        moved2,
        e2,
        effects1 ++ effects2,
        rw (run1, run2) refl,
        r2,
        rounds_sum (e.packets_routed + e.packets_dropped) (e1.packets_routed + e1.packets_dropped)
            (e2.packets_routed + e2.packets_dropped) (length entities) (length ticks) counts1
            (counts2
              ∙ ap (λ n. (e1.packets_routed + e1.packets_dropped + n * length ticks) % 2 ^ 64)
                  len1),
        len2 ∙ len1,
      )

length-entities_loop : (n i : ℕ) (rand : ℕ → ℕ) → length (entities_loop n i rand) ≡ n
unfolding entities_loop
length-entities_loop zero i rand = refl
length-entities_loop (suc n) i rand = ap suc (length-entities_loop n (i + 1) rand)

-- The simulation over a ready engine: no tick panics, the engine stays ready, and every tick publishes
-- the hundred entities, each of them counted once as routed or as dropped, modulo 2 ^ 64.
pub simulate_loop-IsReady :
    {E : Type 0} (p : Platform) (now : ℕ) (fs : List Fence) (start : ℕ → ℕ) (ticks : List (ℕ → ℕ))
    (e : Engine E)
    → IsReady p fs e
    → (moved : List Entity) × (e' : Engine E) × (effects : List E) × (simulate_loop p now ticks
          (make_entities start)
          e
        ≡ some (moved, e', effects))
      × IsReady p fs e'
      × ((e'.packets_routed + e'.packets_dropped) % 2 ^ 64
          ≡ (e.packets_routed + e.packets_dropped + 100 * length ticks) % 2 ^ 64)
unfolding make_entities
simulate_loop-IsReady p now fs start ticks e r =
    let (moved, e', effects, run, ready, counts, len) =
      loop-IsReady p now fs ticks (make_entities start) e r in
    (
      moved,
      e',
      effects,
      run,
      ready,
      counts
          ∙ ap (λ n. (e.packets_routed + e.packets_dropped + n * length ticks) % 2 ^ 64)
              (length-entities_loop 100 0 start),
    )
