-- ===== src/Geofence/Evaluate.antt =====
-- pkg/geofence/evaluate.go and event.go: the events of a move, and the callbacks that they fire. A
-- callback is the list of effects that its call has. The clock's answer is an argument.
pub mod Events
pub mod Called
use Prim.Native.String.{String}
use text.Mathlib.Text.{◌==◌ as str_eq}
use aerocast.Prelude.{
  ◌>>=◌, ℕ, Bool, true, false, not, ◌&&◌, List, [], ◌∷◌, ◌++◌, Option, none, some, if◌then◌else◌,
}
use aerocast.Binary.Codec.{CoordPacket}
use aerocast.Float.{Platform}
use aerocast.Geofence.Fence.{Fence, name, contains}
use aerocast.Geofence.Store.{Store, fences_near}

pub data EventType : Type 0 where
  enter exit : EventType

-- EventType.String
unfoldable pub event_string : EventType → String
event_string enter = "entered"
event_string exit = "exited"

pub record FenceEvent : Type 0 where
  pub entity_id : ℕ
  pub fence_name : String
  pub kind : EventType
  pub lat : ℕ
  pub lng : ℕ
  pub timestamp : ℕ

-- `callbacks` maps the name of a fence to its callbacks in the order of their registration.
pub record Evaluator (E : Type 0) : Type 0 where
  pub callbacks : List (String × List (FenceEvent → List E))
  pub global_callback : Option (FenceEvent → List E)

-- The event of one fence, as the loop of EvaluateMove appends it.
event_of : Platform → ℕ → Option CoordPacket → CoordPacket → ℕ → Fence → List FenceEvent
event_of p id none to now f =
    if contains p f to.lat to.lng
    then record {
      entity_id = id;
      fence_name = name f;
      kind = enter;
      lat = to.lat;
      lng = to.lng;
      timestamp = now;
    }
      ∷ []
    else []
event_of p id (some from) to now f =
    let now_inside : Bool = contains p f to.lat to.lng in
    let was_inside : Bool = contains p f from.lat from.lng in
    if not was_inside && now_inside
    then record {
      entity_id = id;
      fence_name = name f;
      kind = enter;
      lat = to.lat;
      lng = to.lng;
      timestamp = now;
    }
      ∷ []
    else if was_inside && not now_inside
    then record {
      entity_id = id;
      fence_name = name f;
      kind = exit;
      lat = to.lat;
      lng = to.lng;
      timestamp = now;
    }
      ∷ []
    else []

events_loop : Platform → ℕ → Option CoordPacket → CoordPacket → ℕ → List Fence → List FenceEvent
unfolding event_of
events_loop p id from to now [] = []
events_loop p id from to now (f ∷ fs) =
    event_of p id from to now f ++ events_loop p id from to now fs

module _ {E : Type 0} where
  find_callbacks : String → List (String × List (FenceEvent → List E)) → List (FenceEvent → List E)
  find_callbacks n [] = []
  find_callbacks n ((m, fns) ∷ rest) = if str_eq m n then fns else find_callbacks n rest

  -- OnEvent: append to the fence's callbacks, which are none at first.
  add_callback :
      String
      → (FenceEvent → List E)
      → List (String × List (FenceEvent → List E))
      → List (String × List (FenceEvent → List E))
  add_callback n fn [] = (n, fn ∷ []) ∷ []
  add_callback n fn ((m, fns) ∷ rest) =
      if str_eq m n then (m, fns ++ (fn ∷ [])) ∷ rest else (m, fns) ∷ add_callback n fn rest

  unfoldable pub on_event : Evaluator E → String → (FenceEvent → List E) → Evaluator E
  unfolding add_callback
  on_event e n fn = record e { callbacks = add_callback n fn e.callbacks }

  call_all : List (FenceEvent → List E) → FenceEvent → List E
  call_all [] ev = []
  call_all (fn ∷ fns) ev = fn ev ++ call_all fns ev

  call_global : Option (FenceEvent → List E) → FenceEvent → List E
  call_global none ev = []
  call_global (some fn) ev = fn ev

  unfoldable pub fire_callbacks : Evaluator E → List FenceEvent → List E
  unfolding find_callbacks call_all call_global
  fire_callbacks e [] = []
  fire_callbacks e (ev ∷ evs) =
      (call_global e.global_callback ev ++ call_all (find_callbacks ev.fence_name e.callbacks) ev)
      ++ fire_callbacks e evs

  -- The events and the effects of the callbacks. Without events nothing is called, so the early
  -- return and the test before fireCallbacks need no case of their own.
  unfoldable pub evaluate_move :
      Platform
      → Evaluator E
      → Store
      → ℕ
      → Option CoordPacket
      → CoordPacket
      → ℕ
      → Option (List FenceEvent × List E)
  unfolding events_loop
  evaluate_move p e s id from to now = do
    near_to ← fences_near p s to.lat to.lng
    let events = events_loop p id from to now near_to
    some (events, fire_callbacks e events)
