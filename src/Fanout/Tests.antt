-- ===== src/Fanout/Tests.antt =====
-- Subscribers, channels and a broadcast on concrete values.
use aerocast.Prelude.{ℕ, ◌<◌, ◌≡◌, ◌∙◌, refl, [], ◌∷◌, none, some, arith}
use aerocast.Prelude.Assoc.{lookup, insert}
use aerocast.Prelude.Count.{count}
use aerocast.Binary.Egress.{EgressRecord, EgressBuffer}
use aerocast.Float
use aerocast.Float.{Platform}
use aerocast.Float.Samples.{flat, bay_lat, bay_lng, city_lat, city_lng, half_km}
use aerocast.Spatial.Hash.{cell_key, shards_for_radius, box_of, low4, clamp15}
use aerocast.Fanout.Channel
use aerocast.Fanout.Channel.{
  ChannelManager, new_channel_manager, create, try_send, full, sent, panicked,
}
use aerocast.Fanout.Subscribers.{
  Fanout, Subscription, new_fanout, subscribe, unsubscribe, broadcast, offer,
}
use aerocast.Fanout.Subscribers.Index.{IsSound}
use aerocast.Fanout.Subscribers.Leave.{Left, unsubscribe-Left}
use aerocast.Fanout.Subscribers.Life.{new_fanout-IsSound, lookup-subscribe, subscribe-IsSound}
use aerocast.Fanout.Subscribers.Race.{unsubscribe-offer}
use aerocast.Fanout.Subscribers.Stale.{resubscribe_panics}
use aerocast.Fanout.Subscribers.Extend.{Extends}
use aerocast.Fanout.Multi.{broadcast_multi, group_records, group_of}
use aerocast.Fanout.Multi.Delivery.{mails, in_cell, broadcast_multi-mails}

-- The engine with the subscriber 5, around the bay.
abbrev one_sub : Fanout
one_sub = subscribe flat new_fanout 5 bay_lat bay_lng half_km

abbrev sub5 : Subscription
sub5 = record {
  id = 5;
  center_lat = bay_lat;
  center_lng = bay_lng;
  radius_m = half_km;
  cells = shards_for_radius flat bay_lat bay_lng half_km;
  following = none;
}

nobody : (id : ℕ) → lookup id new_fanout.subs ≡ none
unfolding new_fanout lookup
nobody id = refl

one_sub-IsSound : IsSound one_sub
one_sub-IsSound =
    subscribe-IsSound flat new_fanout 5 bay_lat bay_lng half_km new_fanout-IsSound (nobody 5)

sub5_lem : lookup 5 one_sub.subs ≡ some sub5
sub5_lem = lookup-subscribe flat new_fanout 5 bay_lat bay_lng half_km 5

subscribe-IsSound_example : IsSound (subscribe flat one_sub 6 city_lat city_lng half_km)
subscribe-IsSound_example =
    subscribe-IsSound flat one_sub 6 city_lat city_lng half_km one_sub-IsSound
      (lookup-subscribe flat new_fanout 5 bay_lat bay_lng half_km 6 ∙ nobody 6)

abbrev pooled : EgressBuffer
pooled = record { bytes = []; n = 0; cap = 4096 }

abbrev ping : EgressRecord
ping = record { entity_id = 7; lat = bay_lat; lng = bay_lng }

bay_count : count 178 (shards_for_radius flat bay_lat bay_lng half_km) ≡ 1
unfolding cell_key shards_for_radius box_of low4 clamp15 count Float.add Float.sub Float.mul
    Float.div Float.lt Float.floor_to_int
bay_count = refl

in_bay : 0 < count 178 sub5.cells
in_bay = omega (arith, bay_count)

resubscribe_panics_example :
    (e' : Fanout) × (unsubscribe (subscribe flat one_sub 5 city_lat city_lng half_km) 5 ≡ some e')
    × (lookup 5 e'.subs ≡ none)
    × (0 < count 5 (e'.cell_index 178))
    × (broadcast pooled e' 178 (ping ∷ []) ≡ none)
resubscribe_panics_example =
    resubscribe_panics flat one_sub 5 city_lat city_lng half_km 178 sub5 pooled ping []
      one_sub-IsSound sub5_lem in_bay

ref5 : lookup 5 one_sub.channels.chans ≡ some 0
unfolding subscribe new_fanout create new_channel_manager lookup insert
ref5 = refl

channel5 : Channel.get one_sub.channels 5 ≡ some 0
unfolding Channel.get
channel5 = ref5

unsubscribe-offer_example :
    (e' : Fanout) × (unsubscribe one_sub 5 ≡ some e')
    × (offer e' 0 (Channel.get one_sub.channels 5) (1 ∷ []) ≡ none)
unsubscribe-offer_example =
    unsubscribe-offer one_sub 5 0 0 sub5 (1 ∷ []) one_sub-IsSound sub5_lem channel5

broadcast_multi-mails_example :
    (e' : Fanout) × (n : ℕ) × (broadcast_multi flat pooled
        (λ groups. groups)
        one_sub
        (ping ∷ ping ∷ [])
      ≡ some (e', n))
    × Extends one_sub e' (λ j ch.
      mails one_sub.subs one_sub.cell_index (group_records flat (ping ∷ ping ∷ [])) j ch.frames)
    × ((cell : ℕ)
        → group_of cell (group_records flat (ping ∷ ping ∷ []))
          ≡ in_cell flat cell (ping ∷ ping ∷ []))
broadcast_multi-mails_example =
    broadcast_multi-mails flat pooled (λ groups. groups) one_sub (ping ∷ ping ∷ []) (omega arith)
      one_sub-IsSound

unsubscribe-Left_example : (e' : Fanout) × (unsubscribe one_sub 5 ≡ some e') × Left one_sub 5 e'
unsubscribe-Left_example = unsubscribe-Left one_sub 5 one_sub-IsSound
