-- ===== src/Fanout/Multi.antt =====
-- BroadcastMulti of pkg/fanout/engine.go. The order in which Go ranges over the map of groups is an
-- argument.
pub mod Delivery
use aerocast.Prelude.{◌>>=◌, ℕ, ◌+◌, List, [], ◌∷◌, ◌++◌, Option, none, some}
use aerocast.Prelude.Assoc.{lookup, insert}
use aerocast.Binary.Egress.{EgressRecord, EgressBuffer}
use aerocast.Float.{Platform}
use aerocast.Spatial.Hash.{shard_key}
use aerocast.Fanout.Subscribers.{Fanout, broadcast}

-- m[k], nil for a missing key
unfoldable pub group_of : ℕ → List (ℕ × List EgressRecord) → List EgressRecord
group_of cell groups = elim (lookup cell groups) [ none ↦ [] | some recs ↦ recs ]

-- The records left, and the groups so far.
group_loop :
    Platform → List EgressRecord → List (ℕ × List EgressRecord) → List (ℕ × List EgressRecord)
unfolding group_of
group_loop p [] groups = groups
group_loop p (rec ∷ recs) groups =
    let cell : ℕ = shard_key p rec.lat rec.lng in
    group_loop p recs (insert cell (group_of cell groups ++ (rec ∷ [])) groups)

unfoldable pub group_records : Platform → List EgressRecord → List (ℕ × List EgressRecord)
unfolding group_loop
group_records p recs = group_loop p recs []

-- The groups left, in the order of the range, and the frames sent so far.
total_loop : EgressBuffer → List (ℕ × List EgressRecord) → Fanout → ℕ → Option (Fanout × ℕ)
total_loop recycled [] e total = some (e, total)
total_loop recycled ((cell, recs) ∷ groups) e total = do
  r ← broadcast recycled e cell recs
  total_loop recycled groups r.0 (total + r.1)

-- BroadcastMulti, with the order that the range gives the groups.
unfoldable pub broadcast_multi :
    Platform
    → EgressBuffer
    → (List (ℕ × List EgressRecord) → List (ℕ × List EgressRecord))
    → Fanout
    → List EgressRecord
    → Option (Fanout × ℕ)
unfolding total_loop
broadcast_multi p recycled order e recs = total_loop recycled (order (group_records p recs)) e 0
