-- ===== src/Geofence/Evaluate/Events.antt =====
-- Which events a move has, and who is called.
use aerocast.Prelude.{
  ◌>>=◌, ℕ, ◌+◌, ◌≡◌, ◌∙◌, refl, sym, ap, Bool, true, false, List, [], ◌∷◌, ◌++◌, Option, none,
  some, if◌then◌else◌, arith, All,
}
use aerocast.Binary.Codec.{CoordPacket}
use aerocast.Float.{Platform}
use aerocast.Spatial.Grid.{key_of}
use aerocast.Geofence.Fence.{Fence, name, contains}
use aerocast.Geofence.Store.{Store, new_store, register_all}
use aerocast.Geofence.Store.Index.{covers, filed, fences_near-register_all}
use aerocast.Geofence.Evaluate.{
  EventType, enter, exit, FenceEvent, Evaluator, event_of, events_loop, evaluate_move,
  fire_callbacks,
}

-- The kind of event for an entity that was inside or not, and is inside or not.
abbrev pub crossing : Bool → Bool → Option EventType
crossing false true = some enter
crossing true false = some exit
crossing false false = none
crossing true true = none

-- An entity with no earlier position was outside of every fence.
abbrev pub was_inside : Platform → Option CoordPacket → Fence → Bool
was_inside p none f = false
was_inside p (some c) f = contains p f c.lat c.lng

abbrev emit : ℕ → CoordPacket → ℕ → Fence → Option EventType → List FenceEvent
emit id to now f none = []
emit id to now f (some k) =
    record {
      entity_id = id;
      fence_name = name f;
      kind = k;
      lat = to.lat;
      lng = to.lng;
      timestamp = now;
    }
    ∷ []

module _ (p : Platform) (id : ℕ) (from : Option CoordPacket) (to : CoordPacket) (now : ℕ) where
  -- One event for each fence that is filed under the cell of the new position and was crossed, in
  -- the order of registration.
  abbrev pub expected : List Fence → List FenceEvent
  expected [] = []
  expected (f ∷ fs) =
      if covers p (key_of p to) f
      then emit id to now f (crossing (was_inside p from f) (contains p f to.lat to.lng))
        ++ expected fs
      else expected fs

event_of-emit :
    (p : Platform) (id : ℕ) (from : Option CoordPacket) (to : CoordPacket) (now : ℕ) (f : Fence)
    → event_of p id from to now f
      ≡ emit id to now f (crossing (was_inside p from f) (contains p f to.lat to.lng))
unfolding event_of
event_of-emit p id none to now f = ground arith
event_of-emit p id (some c) to now f = ground arith

events_loop-filed :
    (p : Platform) (id : ℕ) (from : Option CoordPacket) (to : CoordPacket) (now : ℕ)
    (fs : List Fence)
    → events_loop p id from to now (filed p (key_of p to) fs) ≡ expected p id from to now fs
unfolding events_loop
events_loop-filed p id from to now [] = refl
events_loop-filed p id from to now (f ∷ fs) =
    ground (arith, event_of-emit p id from to now f, events_loop-filed p id from to now fs)

-- EvaluateMove over any registered fences: it never reads out of range, and it reports one event for
-- each fence that is filed under the cell of the new position and whose boundary the move crossed,
-- an enter from outside to inside and an exit from inside to outside. These are the events that
-- fire_callbacks gets.
pub evaluate_move-expected :
    {E : Type 0} (p : Platform) (e : Evaluator E) (fs : List Fence) (id : ℕ)
    (from : Option CoordPacket) (to : CoordPacket) (now : ℕ)
    → evaluate_move p e (register_all p new_store fs) id from to now
      ≡ some (expected p id from to now fs, fire_callbacks e (expected p id from to now fs))
unfolding evaluate_move
evaluate_move-expected p e fs id from to now =
    rw (fences_near-register_all p fs to.lat to.lng)
      (ap (λ t. some (t, fire_callbacks e t)) (events_loop-filed p id from to now fs))

expected_skips :
    (p : Platform) (id : ℕ) (from : Option CoordPacket) (to : CoordPacket) (now : ℕ) (f : Fence)
    (xs ys : List Fence)
    → covers p (key_of p to) f ≡ false
    → expected p id from to now (xs ++ (f ∷ ys)) ≡ expected p id from to now (xs ++ ys)
expected_skips p id from to now f [] ys h = rw h
expected_skips p id from to now f (x ∷ xs) ys h =
    ground (arith, expected_skips p id from to now f xs ys h)

-- An exit is missed whenever the move ends in a cell under which the fence is not filed: the entity
-- was inside and is outside, which is an exit, and yet the move has the events and the callbacks of a
-- store in which that fence was never registered.
pub exit_missed :
    {E : Type 0} (p : Platform) (e : Evaluator E) (xs ys : List Fence) (f : Fence) (id : ℕ)
    (from to : CoordPacket) (now : ℕ)
    → contains p f from.lat from.lng ≡ true
    → contains p f to.lat to.lng ≡ false
    → covers p (key_of p to) f ≡ false
    → (crossing (was_inside p (some from) f) (contains p f to.lat to.lng) ≡ some exit)
      × (evaluate_move p e (register_all p new_store (xs ++ (f ∷ ys))) id (some from) to now
          ≡ evaluate_move p e (register_all p new_store (xs ++ ys)) id (some from) to now)
exit_missed p e xs ys f id from to now was is far = (
  rw (was, is),
  evaluate_move-expected p e (xs ++ (f ∷ ys)) id (some from) to now
      ∙ ap (λ t. some (t, fire_callbacks e t)) (expected_skips p id (some from) to now f xs ys far)
      ∙ sym (evaluate_move-expected p e (xs ++ ys) id (some from) to now),
)

-- How many events are of a kind.
abbrev pub enters : List FenceEvent → ℕ
enters [] = 0
enters (ev ∷ evs) = elim ev.kind [ enter ↦ 1 | exit ↦ 0 ] + enters evs

abbrev pub exits : List FenceEvent → ℕ
exits [] = 0
exits (ev ∷ evs) = elim ev.kind [ enter ↦ 0 | exit ↦ 1 ] + exits evs

enters-append : (xs ys : List FenceEvent) → enters (xs ++ ys) ≡ enters xs + enters ys
enters-append [] ys = omega arith
enters-append (x ∷ xs) ys = omega (arith, enters-append xs ys)

exits-append : (xs ys : List FenceEvent) → exits (xs ++ ys) ≡ exits xs + exits ys
exits-append [] ys = omega arith
exits-append (x ∷ xs) ys = omega (arith, exits-append xs ys)

-- The events of an entity that visits these positions one after the other.
pub visits :
    {E : Type 0}
    → Platform
    → Evaluator E
    → Store
    → ℕ
    → Option CoordPacket
    → List CoordPacket
    → ℕ
    → Option (List FenceEvent)
visits p e s id from [] now = some []
visits p e s id from (to ∷ tos) now = do
  r ← evaluate_move p e s id from to now
  rest ← visits p e s id (some to) tos now
  some (r.0 ++ rest)

abbrev pub last_position : Option CoordPacket → List CoordPacket → Option CoordPacket
last_position from [] = from
last_position from (to ∷ tos) = last_position (some to) tos

abbrev pub indicator : Bool → ℕ
indicator true = 1
indicator false = 0

-- With one fence, and as long as it is filed under every cell that the entity visits, enters and exits
-- balance: the enters, with one more if the entity began inside, are the exits, with one more if it
-- ends inside.
pub visits_balance :
    {E : Type 0} (p : Platform) (e : Evaluator E) (f : Fence) (id : ℕ) (from : Option CoordPacket)
    (tos : List CoordPacket) (now : ℕ)
    → All (λ c. covers p (key_of p c) f ≡ true) tos
    → (evs : List FenceEvent) × (visits p e (register_all p new_store (f ∷ [])) id from tos now
        ≡ some evs)
      × (enters evs + indicator (was_inside p from f)
          ≡ exits evs + indicator (was_inside p (last_position from tos) f))
unfolding visits
visits_balance p e f id from [] now h = ([], refl, refl)
visits_balance p e f id from (to ∷ tos) now (h, hs) =
    let (evs, run, balance) = visits_balance p e f id (some to) tos now hs in
    let here = expected p id from to now (f ∷ []) in
    (
      here ++ evs,
      rw (evaluate_move-expected p e (f ∷ []) id from to now, run),
      ground (arith, balance, enters-append here evs, exits-append here evs),
    )
