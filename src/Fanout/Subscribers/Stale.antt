-- ===== src/Fanout/Subscribers/Stale.antt =====
-- What a second Subscribe under one id leaves behind.
use aerocast.Prelude.{
  ℕ, ◌<◌, ◌≡◌, sym, List, [], ◌∷◌, none, some, ◌==◌, if◌then◌else◌, arith, Option-cases, Bool-cases,
  ==_iff, inl, inr, subst,
}
use aerocast.Prelude.Count.{count}
use aerocast.Prelude.Assoc.{lookup, delete, lookup-insert, lookup-delete, insert-Distinct, Distinct}
use aerocast.Binary.Egress.{EgressRecord, EgressBuffer}
use aerocast.Float.{Platform}
use aerocast.Spatial.Hash.{shards_for_radius}
use aerocast.Fanout.Channel.{ChannelManager, remove}
use aerocast.Fanout.Channel.Laws.{IsWired, create-IsWired, remove-IsWired}
use aerocast.Fanout.Subscribers.{
  Fanout, Subscription, subscribe, unsubscribe, unsubscribe_at, unindex_cells, broadcast, snapshot,
  deliver_loop, deliver_one,
}
use aerocast.Fanout.Subscribers.Index.{IsSound, count-index_cells, count-unindex_cells}

-- A nil subscription in the snapshot ends the loop in a panic, whatever the rounds before it did.
deliver_loop_nil :
    (recycled : EgressBuffer) (rec : EgressRecord) (recs : List EgressRecord)
    (subs : List (ℕ × Subscription)) (ids : List ℕ) (id : ℕ) (e : Fanout) (n : ℕ)
    → lookup id subs ≡ none
    → 0 < count id ids
    → deliver_loop recycled (rec ∷ recs) (snapshot subs ids) e n ≡ none
unfolding deliver_loop snapshot count deliver_one
deliver_loop_nil recycled rec recs subs [] id e n h c = absurd (omega arith)
deliver_loop_nil recycled rec recs subs (x ∷ ids) id e n h c = elim (Bool-cases (x == id)) [
  | inl same ↦
      subst (λ y. deliver_loop recycled (rec ∷ recs) (lookup y subs ∷ snapshot subs ids) e n ≡ none)
        (sym ((==_iff x id).0 same)) (rw (h, deliver_one))
  | inr other ↦ elim (Option-cases (deliver_one recycled (rec ∷ recs) e n (lookup x subs))) [
    | inl e0 ↦ rw (e0, deliver_loop)
    | inr ((e', n'), e1) ↦
        rw (e1, deliver_loop)
          (deliver_loop_nil recycled rec recs subs ids id e' n' h (ground (arith, other)))
  ]
]

-- Subscribing an id that is subscribed already and unsubscribing it once leaves the id in the index
-- of every cell of its first subscription, with no subscription behind it; the next broadcast of
-- any record to such a cell reads a nil subscription and panics.
pub resubscribe_panics :
    (p : Platform) (e : Fanout) (id lat lng radius_m cell : ℕ) (sub : Subscription)
    (recycled : EgressBuffer) (rec : EgressRecord) (recs : List EgressRecord)
    → IsSound e
    → lookup id e.subs ≡ some sub
    → 0 < count cell sub.cells
    → (e' : Fanout) × (unsubscribe (subscribe p e id lat lng radius_m) id ≡ some e')
      × (lookup id e'.subs ≡ none)
      × (0 < count id (e'.cell_index cell))
      × (broadcast recycled e' cell (rec ∷ recs) ≡ none)
unfolding unsubscribe subscribe broadcast
resubscribe_panics p e id lat lng radius_m cell sub recycled rec recs s h in_cell = (
  left,
  rw (found, unsubscribe_at) (rw removed),
  gone,
  stale,
  deliver_loop_nil recycled rec recs left.subs (left.cell_index cell) id left 0 gone stale,
)
  where
    cells : List ℕ
    cells = shards_for_radius p lat lng radius_m

    twice : Fanout
    twice = subscribe p e id lat lng radius_m

    taken :
        (cm : ChannelManager) × (remove twice.channels id ≡ some cm)
        × IsWired cm
        × ((j : ℕ) → lookup j cm.chans ≡ (if id == j then none else lookup j twice.channels.chans))
    taken = remove-IsWired twice.channels id (create-IsWired e.channels id s.wired)

    removed : remove twice.channels id ≡ some taken.0
    removed = taken.1

    new : Subscription
    new = record {
      id = id;
      center_lat = lat;
      center_lng = lng;
      radius_m = radius_m;
      cells = cells;
      following = none;
    }

    distinct : Distinct twice.subs
    distinct = insert-Distinct id new e.subs s.distinct

    found : lookup id twice.subs ≡ some new
    found = ground (arith, lookup-insert id id new e.subs)

    left : Fanout
    left = record twice {
      subs = delete id twice.subs;
      cell_index = unindex_cells id cells twice.cell_index;
      channels = taken.0;
    }

    gone : lookup id left.subs ≡ none
    gone = ground (arith, lookup-delete id id twice.subs distinct)

    stale : 0 < count id (left.cell_index cell)
    stale = ground (
      arith,
      count-unindex_cells id cells twice.cell_index cell id,
      count-index_cells id cells e.cell_index cell id,
      s.indexed cell id,
    )
