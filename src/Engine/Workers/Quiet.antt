-- ===== src/Engine/Workers/Quiet.antt =====
-- Workers that are left to run come to rest.
use aerocast.Prelude.{
  ℕ, zero, suc, ◌-◌, ◌≤◌, ◌≡◌, List, some, ◌==◌, inl, inr, arith, Bool-cases, Option-cases, ltb,
}
use aerocast.Prelude.Array.{update, update_self}
use aerocast.Binary.Egress.{EgressBuffer}
use aerocast.Float.{Platform}
use aerocast.Spatial.Grid.Tracking.{Tracks}
use aerocast.Geofence.Fence.{Fence}
use aerocast.Geofence.Evaluate.{evaluate_move}
use aerocast.Engine.Cms.{add_and_estimate}
use aerocast.Engine.Pipeline.{Engine, last_position, same_position}
use aerocast.Engine.Pipeline.Ready.{IsReady}
use aerocast.Engine.Workers.{
  Phase, System, Step, receives, advances, ticked, registered, Runs, done, more, idle, received,
  refused, counted, fetched, moving, left, entered, evaluated, stored, advance, follow_pointer,
}
use aerocast.Engine.Workers.Local.{advance-Advanced, calls}
use aerocast.Engine.Workers.Kept.{Consistent}
use aerocast.Engine.Workers.Invariant.{
  resting-IsConsistent, Step-Consistent, Runs-Consistent, workers_tracked,
}

-- The accesses that a worker has left at most.
abbrev remaining : Phase → ℕ
remaining idle = 0
remaining (received pkt) = 8
remaining refused = 1
remaining (counted pkt) = 7
remaining (fetched pkt found) = 6
remaining (moving pkt found) = 5
remaining (left pkt found) = 4
remaining (entered pkt found) = 3
remaining (evaluated pkt) = 2
remaining (stored pkt) = 1

-- A phase without accesses left is idle.
remaining_none : (ph : Phase) → remaining ph ≡ 0 → ph ≡ idle
remaining_none ph h = ground (arith, h)

idle_after : (ph next : Phase) → ph ≡ idle → remaining next ≤ remaining ph - 1 → remaining next ≡ 0
idle_after ph next h less = ground (arith, h, less)

module _ {E : Type 0} (p : Platform) where
  -- Each access leaves one less.
  advance-remaining :
      (now : ℕ) (e e' : Engine E) (ph next : Phase) (effects : List E)
      → advance p now e ph ≡ some (e', next, effects)
      → remaining next ≤ remaining ph - 1
  unfolding advance
  advance-remaining now e e' idle next effects h = ground (arith, h)
  advance-remaining now e e' (received pkt) next effects h =
      elim (Bool-cases (ltb 50 (add_and_estimate e.cms pkt.entity_id).1)) [
        | inl k ↦ ground (arith, h, k)
        | inr k ↦ ground (arith, h, k)
      ]
  advance-remaining now e e' refused next effects h = ground (arith, h)
  advance-remaining now e e' (counted pkt) next effects h = ground (arith, h)
  advance-remaining now e e' (fetched pkt found) next effects h =
      elim (Bool-cases (same_position (follow_pointer e pkt.entity_id found) pkt.coord)) [
        | inl k ↦ ground (arith, h, k)
        | inr k ↦ ground (arith, h, k)
      ]
  advance-remaining now e e' (moving pkt found) next effects h = ground (arith, h)
  advance-remaining now e e' (left pkt found) next effects h = ground (arith, h)
  advance-remaining now e e' (entered pkt found) next effects h =
      elim (Option-cases (
        evaluate_move p e.evaluator e.fences pkt.entity_id (follow_pointer e pkt.entity_id found)
          pkt.coord now)) [ inl k ↦ ground (arith, h, k) | inr (r, k) ↦ ground (arith, h, k) ]
  advance-remaining now e e' (evaluated pkt) next effects h = ground (arith, h)
  advance-remaining now e e' (stored pkt) next effects h = ground (arith, h)

module _ {E : Type 0} (p : Platform) (recycled : EgressBuffer) where
  pub Runs-trans :
      (s s' s'' : System E) → Runs p recycled s s' → Runs p recycled s' s'' → Runs p recycled s s''
  Runs-trans _ _ s'' (done s) rest = rest
  Runs-trans _ _ s'' (more s s1 s' step run) rest =
      more s s1 s'' step (Runs-trans s1 s' s'' run rest)

  -- A run of accesses of workers only: nothing is received, no tick, no registration.
  abbrev pub Own : {s s' : System E} → Runs p recycled s s' → Type 0
  Own (done s) = Unit {0}
  Own (more s s1 s2 (receives e phase i pkt resting nobody) run) = ⊥
  Own (more s s1 s2 (advances e e' phase i now next effects went) run) = Own run
  Own (more s s1 s2 (ticked e e' phase went) run) = ⊥
  Own (more s s1 s2 (registered e phase f) run) = ⊥

  Own-Runs-trans :
      (s s' s'' : System E) (r : Runs p recycled s s') (q : Runs p recycled s' s'')
      → Own r
      → Own q
      → Own (Runs-trans s s' s'' r q)
  unfolding Runs-trans
  Own-Runs-trans _ _ s'' (done s) q own own' = own'
  Own-Runs-trans _ _ s'' (more s s1 s' (receives e phase i pkt resting nobody) run) q own own' =
      absurd own
  Own-Runs-trans _ _ s'' (more s s1 s' (advances e e' phase i now next effects went) run) q own
        own' =
      Own-Runs-trans s1 s' s'' run q own own'
  Own-Runs-trans _ _ s'' (more s s1 s' (ticked e e' phase went) run) q own own' = absurd own
  Own-Runs-trans _ _ s'' (more s s1 s' (registered e phase f) run) q own own' = absurd own

  -- A worker of a consistent system comes to rest by its own accesses; the others stay where they are.
  worker_finishes :
      (n i : ℕ) (s : System E)
      → remaining (s.phase i) ≤ n
      → Consistent p s
      → (s' : System E) × (run : Runs p recycled s s') × (s'.phase i ≡ idle)
        × ((k : ℕ) → s.phase k ≡ idle → s'.phase k ≡ idle)
        × Own run
  worker_finishes zero i s few c =
      (s, done s, remaining_none (s.phase i) (omega arith), λ k h. h, tt)
  worker_finishes (suc n) i s few (fs, seen, c) =
      let (seen1, e1, next, run, a) =
        advance-Advanced p fs seen 0 s.engine (s.phase i) c.tracks c.stored (c.fits i) in
      let s1 : System E = record { engine = e1; phase = update s.phase i next } in
      let step : Step p recycled s s1 =
        advances s.engine e1 s.phase i 0 next (calls p fs 0 s.engine (s.phase i)) run in
      let less = advance-remaining p 0 s.engine e1 (s.phase i) next _ run in
      let (s2, runs, resting, others, own) =
        worker_finishes n i s1 (rw (update_self s.phase i next) (omega arith))
          (Step-Consistent p recycled s s1 step (fs, seen, c)) in
      (
        s2,
        more s s1 s2 step runs,
        resting,
        λ k h. others k (elim (Bool-cases (i == k)) [
          | inl same ↦
              rw same
                (remaining_none next (idle_after (s.phase i) next (ground (arith, same, h)) less))
          | inr other ↦ rw other h
        ]),
        own,
      )

  -- So do all workers below n, one after the other.
  workers_finish :
      (n : ℕ) (s : System E)
      → Consistent p s
      → ((k : ℕ) → n ≤ k → s.phase k ≡ idle)
      → (s' : System E) × (run : Runs p recycled s s') × ((k : ℕ) → s'.phase k ≡ idle) × Own run
  workers_finish zero s c others = (s, done s, λ k. others k (omega arith), tt)
  workers_finish (suc n) s c others =
      let (s1, runs1, resting, kept, own1) =
        worker_finishes (remaining (s.phase n)) n s (omega arith) c in
      let (s2, runs2, all, own2) =
        workers_finish n s1 (Runs-Consistent p recycled s s1 runs1 c) (λ k h.
          elim (Bool-cases (n == k)) [
            | inl same ↦ ground (arith, same, resting)
            | inr other ↦ kept k (others k (ground (arith, other, h)))
          ]) in
      (s2, Runs-trans s s1 s2 runs1 runs2, all, Own-Runs-trans s s1 s2 runs1 runs2 own1 own2)

-- Whatever n workers have done from a ready engine on, without two of them at one entity, and with ticks and
-- registrations in between: there is a way on, of accesses of workers only, on which all of them become idle,
-- so none of them waits for a tick, a registration or another packet; and the grid then agrees with the last
-- positions.
pub workers_come_to_rest :
    {E : Type 0} (p : Platform) (recycled : EgressBuffer) (fs : List Fence) (e : Engine E)
    (s : System E) (n : ℕ)
    → IsReady p fs e
    → Runs p recycled (record { engine = e; phase = λ i. idle }) s
    → ((k : ℕ) → n ≤ k → s.phase k ≡ idle)
    → (s' : System E) × (run : Runs p recycled s s') × ((k : ℕ) → s'.phase k ≡ idle)
      × Own p recycled run
      × Tracks p s'.engine.grid (last_position s'.engine)
workers_come_to_rest p recycled fs e s n ready runs others =
    let start : System _ = record { engine = e; phase = λ i. idle } in
    let (s', rest, all, own) =
      workers_finish p recycled n s
        (Runs-Consistent p recycled start s runs
          (fs, last_position e, resting-IsConsistent p fs e ready))
        others in
    (
      s',
      rest,
      all,
      own,
      (workers_tracked p recycled fs e s' ready (Runs-trans p recycled start s s' runs rest)).2 all,
    )
