-- ===== src/Engine/Workers/Counted.antt =====
-- The packets that workers receive against the counters of the engine (pkg/engine/pipeline.go).
use aerocast.Prelude.{
  ℕ, zero, suc, ◌+◌, ◌%◌, ◌^◌, ◌≤◌, ◌<◌, ◌≡◌, refl, List, some, ◌==◌, ==_iff, inl, inr, arith, ltb,
  Bool-cases, Option-cases,
}
use aerocast.Prelude.Array.{update}
use aerocast.Binary.Egress.{EgressBuffer}
use aerocast.Float.{Platform}
use aerocast.Geofence.Evaluate.{evaluate_move}
use aerocast.Engine.Cms.{add_and_estimate}
use aerocast.Engine.Pipeline.{Engine, same_position, count_dropped}
use aerocast.Engine.Pipeline.Untouched.{tick-Same}
use aerocast.Engine.Workers.{
  Phase, System, receives, advances, ticked, registered, Runs, done, more, idle, received, refused,
  counted, fetched, moving, left, entered, evaluated, stored, advance, follow_pointer,
}

-- A worker that has not counted its packet yet.
abbrev pending : Phase → ℕ
pending idle = 0
pending ph = 1

-- How many packets the workers receive in a run.
abbrev pub taken :
    {E : Type 0} {p : Platform} {recycled : EgressBuffer} {s s' : System E}
    → Runs p recycled s s'
    → ℕ
taken (done s) = 0
taken (more s s1 s2 (receives e phase i pkt resting nobody) run) = suc (taken run)
taken (more s s1 s2 (advances e e' phase i now next effects went) run) = taken run
taken (more s s1 s2 (ticked e e' phase went) run) = taken run
taken (more s s1 s2 (registered e phase f) run) = taken run

-- No worker beyond this index takes part in a run.
abbrev reach :
    {E : Type 0} {p : Platform} {recycled : EgressBuffer} {s s' : System E}
    → Runs p recycled s s'
    → ℕ
reach (done s) = 0
reach (more s s1 s2 (receives e phase i pkt resting nobody) run) = suc i + reach run
reach (more s s1 s2 (advances e e' phase i now next effects went) run) = suc i + reach run
reach (more s s1 s2 (ticked e e' phase went) run) = reach run
reach (more s s1 s2 (registered e phase f) run) = reach run

-- The packets that the first n workers hold.
abbrev in_flight : ℕ → (ℕ → Phase) → ℕ
in_flight zero phase = 0
in_flight (suc n) phase = pending (phase n) + in_flight n phase

in_flight-update_ge :
    (n i : ℕ) (phase : ℕ → Phase) (ph : Phase)
    → n ≤ i
    → in_flight n (update phase i ph) ≡ in_flight n phase
in_flight-update_ge zero i phase ph h = refl
in_flight-update_ge (suc n) i phase ph h =
    ground (arith, h, in_flight-update_ge n i phase ph (omega (arith, h)))

in_flight-update :
    (n i : ℕ) (phase : ℕ → Phase) (ph : Phase)
    → i < n
    → in_flight n (update phase i ph) + pending (phase i) ≡ in_flight n phase + pending ph
in_flight-update zero i phase ph h = absurd (omega (arith, h))
in_flight-update (suc n) i phase ph h = elim (Bool-cases (i == n)) [
  | inl same ↦
      ground (arith, same, in_flight-update_ge n i phase ph (omega (arith, (==_iff i n).0 same)))
  | inr other ↦ ground (arith, other, in_flight-update n i phase ph (ground (arith, other, h)))
]

module _ {E : Type 0} (p : Platform) where
  advance-pending :
      (now : ℕ) (e e' : Engine E) (ph next : Phase) (effects : List E)
      → advance p now e ph ≡ some (e', next, effects)
      → (e'.packets_routed + e'.packets_dropped + pending next) % 2 ^ 64
        ≡ (e.packets_routed + e.packets_dropped + pending ph) % 2 ^ 64
  unfolding advance count_dropped
  advance-pending now e e' idle next effects h = ground (arith, h)
  advance-pending now e e' (received pkt) next effects h =
      elim (Bool-cases (ltb 50 (add_and_estimate e.cms pkt.entity_id).1)) [
        | inl k ↦ ground (arith, h, k)
        | inr k ↦ ground (arith, h, k)
      ]
  advance-pending now e e' refused next effects h = ground (arith, h)
  advance-pending now e e' (counted pkt) next effects h = ground (arith, h)
  advance-pending now e e' (fetched pkt found) next effects h =
      elim (Bool-cases (same_position (follow_pointer e pkt.entity_id found) pkt.coord)) [
        | inl k ↦ ground (arith, h, k)
        | inr k ↦ ground (arith, h, k)
      ]
  advance-pending now e e' (moving pkt found) next effects h = ground (arith, h)
  advance-pending now e e' (left pkt found) next effects h = ground (arith, h)
  advance-pending now e e' (entered pkt found) next effects h =
      elim (Option-cases (
        evaluate_move p e.evaluator e.fences pkt.entity_id (follow_pointer e pkt.entity_id found)
          pkt.coord now)) [ inl k ↦ ground (arith, h, k) | inr (r, k) ↦ ground (arith, h, k) ]
  advance-pending now e e' (evaluated pkt) next effects h = ground (arith, h)
  advance-pending now e e' (stored pkt) next effects h = ground (arith, h)

-- The sums before and after a step.
same_sum :
    (c c' f f' a b m t : ℕ)
    → (c' + b) % 2 ^ 64 ≡ (c + a) % 2 ^ 64
    → f' + a ≡ f + b
    → m % 2 ^ 64 ≡ (c' + f' + t) % 2 ^ 64
    → m % 2 ^ 64 ≡ (c + f + t) % 2 ^ 64
same_sum c c' f f' a b m t h k g = omega (arith, h, k, g)

module _ {E : Type 0} (p : Platform) (recycled : EgressBuffer) (n : ℕ) where
  abbrev held : System E → ℕ
  held s = s.engine.packets_routed + s.engine.packets_dropped + in_flight n s.phase

  Runs-held :
      (s s' : System E) (run : Runs p recycled s s')
      → reach run ≤ n
      → held s' % 2 ^ 64 ≡ (held s + taken run) % 2 ^ 64
  Runs-held _ _ (done s) few = omega arith
  Runs-held _ s2 (more s s1 _ (receives e phase i pkt resting nobody) run) few =
      let rest = Runs-held s1 s2 run (omega (arith, few)) in
      let one : in_flight n (update phase i (received pkt)) ≡ in_flight n phase + 1 =
        ground (arith, resting, in_flight-update n i phase (received pkt) (omega (arith, few))) in
      omega (arith, rest, one)
  Runs-held _ s2 (more s s1 _ (advances e e' phase i now next effects went) run) few =
      same_sum (e.packets_routed + e.packets_dropped) (e'.packets_routed + e'.packets_dropped)
        (in_flight n phase) (in_flight n (update phase i next)) (pending (phase i)) (pending next)
        (held s2) (taken run) (advance-pending p now e e' (phase i) next effects went)
        (in_flight-update n i phase next (omega (arith, few)))
        (Runs-held s1 s2 run (omega (arith, few)))
  Runs-held _ s2 (more s s1 _ (ticked e e' phase went) run) few =
      let same = tick-Same recycled e e' went in
      omega (arith, Runs-held s1 s2 run few, same.packets_routed, same.packets_dropped)
  Runs-held _ s2 (more s s1 _ (registered e phase f) run) few = Runs-held s1 s2 run few

in_flight_none : (n : ℕ) (phase : ℕ → Phase) → ((i : ℕ) → phase i ≡ idle) → in_flight n phase ≡ 0
in_flight_none zero phase resting = refl
in_flight_none (suc n) phase resting = ground (arith, resting n, in_flight_none n phase resting)

-- Any run of any number of workers, never two of them at one entity, of ticks and of registrations
-- that begins and ends with all workers idle: every packet that a worker received has been counted
-- exactly once, as routed or as dropped, modulo 2 ^ 64.
pub workers_counted :
    {E : Type 0} (p : Platform) (recycled : EgressBuffer) (s s' : System E)
    (run : Runs p recycled s s')
    → ((i : ℕ) → s.phase i ≡ idle)
    → ((i : ℕ) → s'.phase i ≡ idle)
    → (s'.engine.packets_routed + s'.engine.packets_dropped) % 2 ^ 64
      ≡ (s.engine.packets_routed + s.engine.packets_dropped + taken run) % 2 ^ 64
workers_counted p recycled s s' run before after = omega (
  arith,
  Runs-held p recycled (reach run) s s' run (omega arith),
  in_flight_none (reach run) s.phase before,
  in_flight_none (reach run) s'.phase after,
)
