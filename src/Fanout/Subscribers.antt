-- ===== src/Fanout/Subscribers.antt =====
-- pkg/fanout/engine.go and subscription.go, but for BroadcastMulti, which is in Fanout/Multi. The engine's
-- mutex makes each method's access to the subscriptions atomic; the model runs one method at a time. `none` is a
-- panic.
pub mod Index
pub mod Life
pub mod Leave
pub mod Adds
pub mod Stale
pub mod Race
pub mod Extend
pub mod Delivery
pub mod Wanted
use aerocast.Prelude.{
  ℕ, suc, ◌+◌, ◌%◌, ◌^◌, Bool, true, false, not, List, [], ◌∷◌, ◌++◌, length, Option, none, some,
  ltb, ◌==◌, if◌then◌else◌,
}
use aerocast.Prelude.Assoc.{lookup, insert, delete}
use aerocast.Prelude.Array.{update}
use aerocast.Binary.Egress
use aerocast.Binary.Egress.{EgressRecord, EgressBuffer}
use aerocast.Float.{Platform}
use aerocast.Spatial.Hash.{shards_for_radius}
use aerocast.Fanout.Channel
use aerocast.Fanout.Channel.{ChannelManager, Sent, sent, full, panicked}

-- The keys of a map to struct{}.
abbrev pub EntitySet : Type 0
EntitySet = List (ℕ × Unit {0})

-- `following` is none for the nil map.
pub record Subscription : Type 0 where
  pub id : ℕ
  pub center_lat : ℕ
  pub center_lng : ℕ
  pub radius_m : ℕ
  pub cells : List ℕ
  pub following : Option EntitySet

pub record Fanout : Type 0 where
  pub subs : List (ℕ × Subscription)
  pub cell_index : ℕ → List ℕ
  pub channels : ChannelManager
  pub dropped_frames : ℕ

unfoldable pub new_fanout : Fanout
new_fanout = record {
  subs = [];
  cell_index = λ cell. [];
  channels = Channel.new_channel_manager;
  dropped_frames = 0;
}

has_member : ℕ → EntitySet → Bool
has_member id set = elim (lookup id set) [ none ↦ false | some u ↦ true ]

unfoldable pub has_entity_follow : Subscription → Bool
has_entity_follow s = elim s.following [ none ↦ false | some set ↦ ltb 0 (length set) ]

unfoldable pub wants_entity : Subscription → ℕ → Bool
unfolding has_member
wants_entity s id = elim s.following [ none ↦ true | some set ↦ has_member id set ]

-- `for _, cell := range cells { e.cellIndex[cell] = append(e.cellIndex[cell], id) }`
pub index_cells : ℕ → List ℕ → (ℕ → List ℕ) → ℕ → List ℕ
index_cells id [] index = index
index_cells id (cell ∷ cells) index =
    index_cells id cells (update index cell (index cell ++ (id ∷ [])))

unfoldable pub subscribe : Platform → Fanout → ℕ → ℕ → ℕ → ℕ → Fanout
unfolding index_cells
subscribe p e id lat lng radius_m =
    let cells : List ℕ = shards_for_radius p lat lng radius_m in
    record e {
      subs =
          insert id
            (record {
              id = id;
              center_lat = lat;
              center_lng = lng;
              radius_m = radius_m;
              cells = cells;
              following = none;
            })
            e.subs;
      cell_index = index_cells id cells e.cell_index;
      channels = (Channel.create e.channels id).0;
    }

-- The first occurrence is cut out, and the inner loop breaks.
remove_first : ℕ → List ℕ → List ℕ
remove_first id [] = []
remove_first id (sid ∷ sids) = if sid == id then sids else sid ∷ remove_first id sids

pub unindex_cells : ℕ → List ℕ → (ℕ → List ℕ) → ℕ → List ℕ
unfolding remove_first
unindex_cells id [] index = index
unindex_cells id (cell ∷ cells) index =
    unindex_cells id cells (update index cell (remove_first id (index cell)))

unsubscribe_at : Fanout → ℕ → Option Subscription → Option Fanout
unfolding unindex_cells
unsubscribe_at e id none = some e
unsubscribe_at e id (some sub) = elim (Channel.remove e.channels id) [
  | none ↦ none
  | some channels ↦ some (record e {
    subs = delete id e.subs;
    cell_index = unindex_cells id sub.cells e.cell_index;
    channels = channels;
  })
]

unfoldable pub unsubscribe : Fanout → ℕ → Option Fanout
unfolding unsubscribe_at
unsubscribe e id = unsubscribe_at e id (lookup id e.subs)

-- Follow makes the map if there is none, and writes the entity into it.
follow_at : Fanout → ℕ → ℕ → Option Subscription → Fanout
follow_at e sub_id entity_id none = e
follow_at e sub_id entity_id (some sub) = record e {
  subs =
      insert sub_id
        (record sub {
          following =
              some (insert entity_id tt (elim sub.following [ none ↦ [] | some set ↦ set ]));
        })
        e.subs;
}

unfoldable pub follow : Fanout → ℕ → ℕ → Fanout
unfolding follow_at
follow e sub_id entity_id = follow_at e sub_id entity_id (lookup sub_id e.subs)

drop_follow : ℕ → Option EntitySet → Option EntitySet
drop_follow entity_id none = none
drop_follow entity_id (some set) = some (delete entity_id set)

unfollow_at : Fanout → ℕ → ℕ → Option Subscription → Fanout
unfolding drop_follow
unfollow_at e sub_id entity_id none = e
unfollow_at e sub_id entity_id (some sub) = record e {
  subs = insert sub_id (record sub { following = drop_follow entity_id sub.following }) e.subs;
}

unfoldable pub unfollow : Fanout → ℕ → ℕ → Fanout
unfolding unfollow_at
unfollow e sub_id entity_id = unfollow_at e sub_id entity_id (lookup sub_id e.subs)

-- The records that the subscriber wants, in order.
pub wanted : Subscription → List EgressRecord → List EgressRecord
wanted sub [] = []
wanted sub (rec ∷ recs) =
    let rest = wanted sub recs in if wants_entity sub rec.entity_id then rec ∷ rest else rest

-- The copy of the buffer's bytes; `recycled` is the buffer that the pool hands out.
fill : EgressBuffer → Subscription → List EgressRecord → Option EgressBuffer
unfolding wanted
fill recycled sub recs = Egress.append_all (Egress.get_egress_buffer recycled) (wanted sub recs)

-- Hand a frame to the subscriber's channel, with the count of frames sent.
pub offer : Fanout → ℕ → Option ℕ → List ℕ → Option (Fanout × ℕ)
offer e n none frame = some (e, n)
offer e n (some ref) frame = elim (Channel.try_send e.channels ref frame) [
  | sent channels ↦ some (record e { channels = channels }, n + 1)
  | full ↦ some (record e { dropped_frames = (e.dropped_frames + 1) % 2 ^ 64 }, n)
  | panicked ↦ none
]

-- One round of the second loop of Broadcast. A nil subscription is read by WantsEntity at the first
-- record, if there is one.
deliver_one :
    EgressBuffer → List EgressRecord → Fanout → ℕ → Option Subscription → Option (Fanout × ℕ)
unfolding fill offer
deliver_one recycled [] e n none = some (e, n)
deliver_one recycled (rec ∷ recs) e n none = none
deliver_one recycled recs e n (some sub) = elim (fill recycled sub recs) [
  | none ↦ none
  | some buf ↦
      if buf.n == 0 then some (e, n) else offer e n (Channel.get e.channels sub.id) buf.bytes
]

deliver_loop :
    EgressBuffer → List EgressRecord → List (Option Subscription) → Fanout → ℕ → Option (Fanout × ℕ)
unfolding deliver_one
deliver_loop recycled recs [] e n = some (e, n)
deliver_loop recycled recs (sub ∷ subs) e n = elim (deliver_one recycled recs e n sub) [
  | none ↦ none
  | some (e', n') ↦ deliver_loop recycled recs subs e' n'
]

-- subs[i] = e.subs[id]
snapshot : List (ℕ × Subscription) → List ℕ → List (Option Subscription)
snapshot subs [] = []
snapshot subs (id ∷ ids) = lookup id subs ∷ snapshot subs ids

-- The number that Broadcast returns counts the frames sent.
unfoldable pub broadcast : EgressBuffer → Fanout → ℕ → List EgressRecord → Option (Fanout × ℕ)
unfolding deliver_loop snapshot
broadcast recycled e cell recs =
    deliver_loop recycled recs (snapshot e.subs (e.cell_index cell)) e 0

unfoldable pub subscriber_count : Fanout → ℕ
subscriber_count e = length e.subs

unfoldable pub subscribers_in_cell : Fanout → ℕ → ℕ
subscribers_in_cell e cell = length (e.cell_index cell)
