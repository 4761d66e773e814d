-- ===== src/Engine/Pipeline/Replay.antt =====
-- The pipeline against a map from entities to positions.
use aerocast.Prelude.{
  ℕ, ◌+◌, ◌%◌, ◌^◌, ◌≤◌, ◌<◌, ◌≡◌, ◌∙◌, refl, ap, fun_ext, Bool, true, false, not, List, [], ◌∷◌,
  ◌++◌, length, Option, none, some, if◌then◌else◌, arith, Bool-cases, inl, inr, length-append,
}
use aerocast.Prelude.Array.{update}
use aerocast.Binary.Codec.{CoordPacket}
use aerocast.Float.{Platform}
use aerocast.Spatial.Grid.{get}
use aerocast.Spatial.Grid.Tracking.{get-Tracks}
use aerocast.Geofence.Fence.{Fence}
use aerocast.Engine.Cms
use aerocast.Engine.Cms.{CountMinSketch, add_and_estimate}
use aerocast.Engine.Pipeline.{Engine, IngressPacket, last_position, process_all, same_position}
use aerocast.Engine.Pipeline.Ready.{IsReady, accepts, process_packet-Processed}
use aerocast.Engine.Pipeline.Limits.{process_packet_limit}

-- The positions after a packet: it replaces its entity's, unless it is the same.
abbrev pub replay_one : (ℕ → Option CoordPacket) → IngressPacket → ℕ → Option CoordPacket
replay_one positions pkt =
    if same_position (positions pkt.entity_id) pkt.coord
    then positions
    else update positions pkt.entity_id (some pkt.coord)

abbrev pub replay : (ℕ → Option CoordPacket) → List IngressPacket → ℕ → Option CoordPacket
replay positions [] = positions
replay positions (pkt ∷ pkts) = replay (replay_one positions pkt) pkts

-- How many packets repeat the position of their entity.
abbrev pub repeats : (ℕ → Option CoordPacket) → List IngressPacket → ℕ
repeats positions [] = 0
repeats positions (pkt ∷ pkts) =
    (if same_position (positions pkt.entity_id) pkt.coord then 1 else 0)
    + repeats (replay_one positions pkt) pkts

add_all-snoc :
    (c : CountMinSketch) (ids : List ℕ) (id : ℕ)
    → (add_and_estimate (Cms.add_all c ids) id).0 ≡ Cms.add_all c (ids ++ (id ∷ []))
unfolding Cms.add_all
add_all-snoc c [] id = refl
add_all-snoc c (x ∷ ids) id = add_all-snoc (add_and_estimate c x).0 ids id

dropped_step :
    (d d' n : ℕ) (same taken : Bool)
    → taken ≡ not same
    → d' ≡ (if taken then d else (d + 1) % 2 ^ 64)
    → (d' + n) % 2 ^ 64 ≡ (d + ((if same then 1 else 0) + n)) % 2 ^ 64
dropped_step d d' n same true h k = ground (arith, h, k)
dropped_step d d' n same false h k = ground (arith, h, k)

module _ {E : Type 0} (p : Platform) (fs : List Fence) (c : CountMinSketch) (now : ℕ) where
  -- Within the limit a packet is taken unless it repeats the position.
  accepts_new :
      (e : Engine E) (pkt : IngressPacket) (ids : List ℕ)
      → e.cms ≡ Cms.add_all (Cms.reset c) ids
      → length ids < 50
      → accepts p fs e pkt ≡ not (same_position (last_position e pkt.entity_id) pkt.coord)
  accepts_new e pkt ids counted few =
      elim (Bool-cases (same_position (last_position e pkt.entity_id) pkt.coord)) [
        | inl same ↦ ground (arith, same)
        | inr moved ↦
            (process_packet_limit p fs e c ids pkt now counted (omega (arith, few))).1 few moved
            ∙ ground (arith, moved)
      ]

  process_all-replay_from :
      (e : Engine E) (pkts : List IngressPacket) (ids : List ℕ)
      → IsReady p fs e
      → e.cms ≡ Cms.add_all (Cms.reset c) ids
      → length ids + length pkts ≤ 50
      → (e' : Engine E) × (effects : List E) × (process_all p e pkts now ≡ some (e', effects))
        × IsReady p fs e'
        × (last_position e' ≡ replay (last_position e) pkts)
        × (e'.packets_dropped % 2 ^ 64
            ≡ (e.packets_dropped + repeats (last_position e) pkts) % 2 ^ 64)
  unfolding process_all
  process_all-replay_from e [] ids r counted few = (e, [], refl, r, refl, omega arith)
  process_all-replay_from e (pkt ∷ pkts) ids r counted few =
      let (e1, effects1, run1, done) = process_packet-Processed p fs e pkt now r in
      let taken = accepts_new e pkt ids counted (omega (arith, few)) in
      let moved : last_position e1 ≡ replay_one (last_position e) pkt =
        fun_ext (λ j. done.positions j ∙ ground (arith, taken)) in
      let (e2, effects2, run2, r2, positions, drops) =
        process_all-replay_from e1 pkts (ids ++ (pkt.entity_id ∷ [])) done.ready
          (done.limiter
            ∙ ap (λ s. (add_and_estimate s pkt.entity_id).0) counted
            ∙ add_all-snoc (Cms.reset c) ids pkt.entity_id)
          (omega (arith, few, length-append ids (pkt.entity_id ∷ []))) in
      (
        e2,
        effects1 ++ effects2,
        rw (run1, run2),
        r2,
        positions ∙ ap (λ f. replay f pkts) moved,
        drops
            ∙ ap (λ f. (e1.packets_dropped + repeats f pkts) % 2 ^ 64) moved
            ∙ dropped_step e.packets_dropped e1.packets_dropped
                (repeats (replay_one (last_position e) pkt) pkts)
                (same_position (last_position e pkt.entity_id) pkt.coord) (accepts p fs e pkt) taken
                done.dropped,
      )

-- Right after the reset of a tick, a worker that takes 50 packets or fewer does what a plain map from entities to
-- positions does when it is replayed over them: Get then gives every entity the position that the map has. The
-- packets that repeat the position of their entity, and no others, are counted as dropped.
pub process_all-replay :
    {E : Type 0} (p : Platform) (fs : List Fence) (c : CountMinSketch) (e : Engine E)
    (pkts : List IngressPacket) (now : ℕ)
    → IsReady p fs e
    → e.cms ≡ Cms.reset c
    → length pkts ≤ 50
    → (e' : Engine E) × (effects : List E) × (process_all p e pkts now ≡ some (e', effects))
      × ((id : ℕ)
          → get e'.grid id ≡ elim (replay (last_position e) pkts id) [
            | none ↦ none
            | some coord ↦ some (record { coord = coord })
          ])
      × (e'.packets_dropped % 2 ^ 64
          ≡ (e.packets_dropped + repeats (last_position e) pkts) % 2 ^ 64)
unfolding Cms.add_all
process_all-replay p fs c e pkts now r fresh few =
    let (e', effects, run, r', positions, drops) =
      process_all-replay_from p fs c now e pkts [] r fresh (omega (arith, few)) in
    (
      e',
      effects,
      run,
      λ id.
          get-Tracks p e'.grid (last_position e') id r'.tracks
          ∙ ap
              (λ (f : ℕ → Option CoordPacket). elim (f id) [
                | none ↦ none
                | some coord ↦ some (record { coord = coord })
              ])
              positions,
      drops,
    )
