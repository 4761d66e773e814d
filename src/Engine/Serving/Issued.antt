-- ===== src/Engine/Serving/Issued.antt =====
-- No operation of the engine but Subscribe adds a subscription.
use aerocast.Prelude.{ℕ, ◌≤◌, ◌≡◌, ◌∙◌, ap, List, none, some, arith}
use aerocast.Prelude.Assoc.{lookup}
use aerocast.Binary.Egress.{EgressBuffer}
use aerocast.Float.{Platform}
use aerocast.Geofence.Fence.{Fence}
use aerocast.Fanout.Subscribers.{Fanout}
use aerocast.Fanout.Subscribers.Life.{unsubscribe-IsSound}
use aerocast.Fanout.Subscribers.Adds.{AddsNone, follow-AddsNone, unfollow-AddsNone}
use aerocast.Engine.Pipeline.{Engine, on_follow, on_unfollow, on_unsubscribe, seed_position}
use aerocast.Engine.Pipeline.Ready.{IsReady, process_packet-Processed}
use aerocast.Engine.Pipeline.Tick.{tick-IsReady}
use aerocast.Engine.Pipeline.Steps
use aerocast.Engine.Pipeline.Steps.{
  packet, ticked, seeded, subscribed, unsubscribed, followed, unfollowed, registered, same_value,
}
use aerocast.Engine.Serving.{IsInternal}

pub on_unsubscribe-AddsNone :
    {E : Type 0} (p : Platform) (fs : List Fence) (e e' : Engine E) (id : ℕ)
    → IsReady p fs e
    → on_unsubscribe e id ≡ some e'
    → AddsNone e.fanout e'.fanout
unfolding on_unsubscribe
on_unsubscribe-AddsNone {E = E} p fs e e' id r run j h =
    let (fan, run1, sound, subs, cells) = unsubscribe-IsSound e.fanout id r.sound in
    same_value (λ (x : Engine E). lookup j x.fanout.subs ≡ none) (on_unsubscribe e id)
      (record e { fanout = fan }) e' (rw run1) run (ground (arith, subs j, h))

pub internal-AddsNone :
    {E : Type 0} (p : Platform) (recycled : EgressBuffer) (fs : List Fence) (e e' : Engine E)
    (s : Steps.Step p recycled e e')
    → 20 ≤ recycled.cap
    → IsReady p fs e
    → IsInternal s
    → AddsNone e.fanout e'.fanout
unfolding on_follow on_unfollow seed_position
internal-AddsNone p recycled fs _ _ (packet e e' pkt now effects run) room r inside j h =
    let (e1, effects1, run1, ok) = process_packet-Processed p fs e pkt now r in
    same_value (λ x. lookup j x.0.fanout.subs ≡ none) _ (e1, effects1) (e', effects) run1 run
      (ap (λ (f : Fanout). lookup j f.subs) ok.fanout ∙ h)
internal-AddsNone {E = E} p recycled fs _ _ (ticked e e' run) room r inside j h =
    let (e1, run1, r1, same) = tick-IsReady p fs recycled room e r in
    same_value (λ (x : Engine E). lookup j x.fanout.subs ≡ none) _ e1 e' run1 run
      (ap (lookup j) same.subs ∙ h)
internal-AddsNone p recycled fs _ _ (seeded e id lat lng same) room r inside j h = h
internal-AddsNone p recycled fs _ _ (subscribed e id lat lng radius_m new) room r inside j h =
    absurd inside
internal-AddsNone p recycled fs _ _ (unsubscribed e e' id run) room r inside j h =
    on_unsubscribe-AddsNone p fs e e' id r run j h
internal-AddsNone p recycled fs _ _ (followed e id entity) room r inside j h =
    follow-AddsNone e.fanout id entity j h
internal-AddsNone p recycled fs _ _ (unfollowed e id entity) room r inside j h =
    unfollow-AddsNone e.fanout id entity j h
internal-AddsNone p recycled fs _ _ (registered e f) room r inside j h = h
