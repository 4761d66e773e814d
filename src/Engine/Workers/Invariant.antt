-- ===== src/Engine/Workers/Invariant.antt =====
-- Any number of workers, a tick loop and registrations in any order, while no two workers hold packets
-- of one entity.
use aerocast.Prelude.{ℕ, ◌≡◌, ◌≢◌, ◌∙◌, refl, ap, fun_ext, subst, List, [], ◌∷◌, ◌++◌, some, arith}
use aerocast.Prelude.Array.{update}
use aerocast.Binary.Egress.{EgressBuffer}
use aerocast.Float.{Platform}
use aerocast.Spatial.Grid.Tracking.{Tracks}
use aerocast.Geofence.Fence.{Fence}
use aerocast.Geofence.Store.{new_store, register, register_all}
use aerocast.Engine.Pipeline.{Engine, last_position}
use aerocast.Engine.Pipeline.Untouched.{tick-Same}
use aerocast.Engine.Pipeline.Ready.{IsReady}
use aerocast.Engine.Pipeline.Steps.{register_all-snoc, same_value}
use aerocast.Engine.Workers.{
  Phase, System, Step, receives, advances, ticked, registered, Runs, done, more, idle, entity_of,
  advance,
}
use aerocast.Engine.Workers.Fits.{Positions}
use aerocast.Engine.Workers.Local.{advance-Advanced, calls}
use aerocast.Engine.Workers.Kept.{
  IsConsistent, Consistent, receives-IsConsistent, Advanced-IsConsistent,
}

-- Every step keeps the workers consistent.
pub Step-Consistent :
    {E : Type 0} (p : Platform) (recycled : EgressBuffer) (s s' : System E)
    → Step p recycled s s'
    → Consistent p s
    → Consistent p s'
Step-Consistent p recycled _ _ (receives e phase i pkt resting nobody) (fs, seen, c) =
    (fs, seen, receives-IsConsistent p fs seen e phase i pkt resting nobody c)
Step-Consistent {E = E} p recycled _ _ (advances e e' phase i now next effects run) (fs, seen, c) =
    let (seen1, e1, next1, run1, a) =
      advance-Advanced p fs seen now e (phase i) c.tracks c.stored (c.fits i) in
    (
      fs,
      seen1,
      same_value {A = Engine E × Phase × List E}
          (λ r. IsConsistent p fs seen1 (record { engine = r.0; phase = update phase i r.1 }))
          (advance p now e (phase i)) (e1, next1, calls p fs now e (phase i)) (e', next, effects)
          run1 run (Advanced-IsConsistent p fs seen seen1 e e1 phase i next1 c a),
    )
Step-Consistent p recycled _ _ (ticked e e' phase run) (fs, seen, c) =
    let same = tick-Same recycled e e' run in
    (
      fs,
      seen,
      record {
        tracks = rw same.grid c.tracks;
        stored = same.fences ∙ c.stored;
        fits = rw same.prev_pos c.fits;
        free = rw same.prev_pos c.free;
        apart = c.apart;
      },
    )
Step-Consistent p recycled _ _ (registered e phase f) (fs, seen, c) = (
  fs ++ (f ∷ []),
  seen,
  record {
    tracks = c.tracks;
    stored = ap (λ s. register p s f) c.stored ∙ register_all-snoc p new_store fs f;
    fits = c.fits;
    free = c.free;
    apart = c.apart;
  },
)

pub Runs-Consistent :
    {E : Type 0} (p : Platform) (recycled : EgressBuffer) (s s' : System E)
    → Runs p recycled s s'
    → Consistent p s
    → Consistent p s'
Runs-Consistent p recycled _ _ (done s) c = c
Runs-Consistent p recycled _ _ (more s s1 s2 step rest) c =
    Runs-Consistent p recycled s1 s2 rest (Step-Consistent p recycled s s1 step c)

-- The workers at rest over an engine in which nothing has happened.
pub resting-IsConsistent :
    {E : Type 0} (p : Platform) (fs : List Fence) (e : Engine E)
    → IsReady p fs e
    → IsConsistent p fs (last_position e) (record { engine = e; phase = λ i. idle })
resting-IsConsistent p fs e r = record {
  tracks = r.tracks;
  stored = r.stored;
  fits = λ i. tt;
  free = λ id nobody. refl;
  apart = λ i j id h. ground (arith, h);
}

-- From a ready engine with all workers idle, after any sequence of steps of any number of workers, ticks
-- and registrations in which no worker receives a packet of an entity of which another holds one: a
-- worker makes its next access without a panic, and at EvaluateMove calls exactly the callbacks of the
-- move from the last position of its entity over the fences that are registered by then; the grid
-- holds every entity once, at its last position unless a worker holds it; and once all workers are idle
-- again the grid agrees with the last positions.
pub workers_tracked :
    {E : Type 0} (p : Platform) (recycled : EgressBuffer) (fs : List Fence) (e : Engine E)
    (s : System E)
    → IsReady p fs e
    → Runs p recycled (record { engine = e; phase = λ i. idle }) s
    → ((registered : List Fence) × (s.engine.fences ≡ register_all p new_store registered)
        × ((i now : ℕ)
            → (e' : Engine E) × (next : Phase) × (advance p now s.engine (s.phase i)
                ≡ some (e', next, calls p registered now s.engine (s.phase i)))))
      × ((seen : Positions) × Tracks p s.engine.grid seen
          × ((id : ℕ)
              → ((i : ℕ) → entity_of (s.phase i) ≢ some id)
              → seen id ≡ last_position s.engine id))
      × (((i : ℕ) → s.phase i ≡ idle) → Tracks p s.engine.grid (last_position s.engine))
workers_tracked p recycled fs e s ready runs =
    let (fs', seen, c) =
      Runs-Consistent p recycled (record { engine = e; phase = λ i. idle }) s runs
        (fs, last_position e, resting-IsConsistent p fs e ready) in
    (
      (
        fs',
        c.stored,
        λ i now.
            let (seen', e', next, run, a) =
              advance-Advanced p fs' seen now s.engine (s.phase i) c.tracks c.stored (c.fits i) in
            (e', next, run),
      ),
      (seen, c.tracks, c.free),
      λ resting.
          subst (Tracks p s.engine.grid)
            (fun_ext (λ id. c.free id (λ i h. ground (arith, resting i, h)))) c.tracks,
    )
