-- ===== src/Spatial/Grid.antt =====
-- pkg/spatial/grid.go: 256 shards of 16 striped maps. An array is a function of its index and a map
-- an association list. The stripe mutexes make each of the methods' map accesses atomic; the model
-- runs one method at a time.
pub mod Tracking
pub mod Query
pub mod Race
use aerocast.Prelude.{
  ℕ, zero, suc, ◌+◌, ◌-◌, ◌%◌, Bool, true, false, not, List, [], ◌∷◌, ◌++◌, map, length, Option,
  none, some, ◌==◌, if◌then◌else◌,
}
use aerocast.Prelude.Assoc.{lookup, insert, delete}
use aerocast.Prelude.Array.{update}
use aerocast.Binary.Codec.{CoordPacket}
use aerocast.Binary.Egress.{EgressRecord}
use aerocast.Float
use aerocast.Float.{Platform}
use aerocast.Spatial.Hash.{shard_key, shards_for_radius, haversine_m, shard_count}

abbrev pub grid_stripes : ℕ
grid_stripes = 16

pub record EntityState : Type 0 where
  pub coord : CoordPacket

abbrev pub Entries : Type 0
Entries = List (ℕ × EntityState)

-- The entries of each shard and stripe.
abbrev pub Grid : Type 0
Grid = ℕ → ℕ → Entries

unfoldable pub new_grid : Grid
new_grid shard stripe = []

abbrev pub key_of : Platform → CoordPacket → ℕ
key_of p c = shard_key p c.lat c.lng

-- s.entries[stripe][id] = EntityState{Coord: coord} in one shard, and the delete from it.
abbrev put_entry : Grid → ℕ → ℕ → EntityState → Grid
put_entry g key id state =
    update g key (update (g key) (id % grid_stripes) (insert id state (g key (id % grid_stripes))))

abbrev drop_entry : Grid → ℕ → ℕ → Grid
drop_entry g key id =
    update g key (update (g key) (id % grid_stripes) (delete id (g key (id % grid_stripes))))

unfoldable pub route : Platform → Grid → ℕ → CoordPacket → Grid
route p g id coord = put_entry g (key_of p coord) id (record { coord = coord })

-- The first part of RouteWithPrevious: the old entry goes if its cell is another one.
unfoldable pub leave_old : Platform → Grid → ℕ → ℕ → Option CoordPacket → Grid
leave_old p g id new_key none = g
leave_old p g id new_key (some prev) =
    if key_of p prev == new_key then g else drop_entry g (key_of p prev) id

has_moved : Platform → ℕ → Option CoordPacket → Bool
has_moved p new_key none = true
has_moved p new_key (some prev) = not (key_of p prev == new_key)

unfoldable pub route_with_previous :
    Platform → Grid → ℕ → CoordPacket → Option CoordPacket → Grid × Bool
unfolding leave_old has_moved
route_with_previous p g id coord prev =
    let new_key : ℕ = key_of p coord in
    (
      put_entry (leave_old p g id new_key prev) new_key id (record { coord = coord }),
      has_moved p new_key prev,
    )

unfoldable pub remove : Platform → Grid → ℕ → ℕ → ℕ → Grid
remove p g id lat lng = drop_entry g (shard_key p lat lng) id

-- The shards left, and the next one.
get_loop : ℕ → ℕ → Grid → ℕ → Option EntityState
get_loop zero i g id = none
get_loop (suc n) i g id = elim (lookup id (g i (id % grid_stripes))) [
  | none ↦ get_loop n (i + 1) g id
  | some state ↦ some state
]

unfoldable pub get : Grid → ℕ → Option EntityState
unfolding get_loop
get g id = get_loop shard_count 0 g id

-- The stripes left, and the next one: one pass over a shard's maps, in order.
unfoldable pub stripes_loop : ℕ → ℕ → (ℕ → Entries) → Entries
stripes_loop zero stripe shard = []
stripes_loop (suc n) stripe shard = shard stripe ++ stripes_loop n (stripe + 1) shard

unfoldable pub shard_entries : (ℕ → Entries) → Entries
unfolding stripes_loop
shard_entries shard = stripes_loop grid_stripes 0 shard

-- The test of QueryCircle on one entry.
near : Platform → ℕ → ℕ → ℕ → EntityState → Bool
near p lat lng radius_m state =
    Float.le (haversine_m p lat lng state.coord.lat state.coord.lng) radius_m

module _ (p : Platform) (lat lng radius_m : ℕ) where
  near_entries : Entries → Entries
  unfolding near
  near_entries [] = []
  near_entries ((id, state) ∷ es) =
      let rest = near_entries es in
      if near p lat lng radius_m state then (id, state) ∷ rest else rest

  query_loop : Grid → List ℕ → Entries
  unfolding near_entries
  query_loop g [] = []
  query_loop g (key ∷ keys) = near_entries (shard_entries (g key)) ++ query_loop g keys

-- The two queries run the same loops and append the id, or the state, of each near entry.
unfoldable pub query_circle : Platform → Grid → ℕ → ℕ → ℕ → List ℕ
unfolding query_loop
query_circle p g lat lng radius_m =
    map (λ e. e.0) (query_loop p lat lng radius_m g (shards_for_radius p lat lng radius_m))

unfoldable pub query_circle_with_coords : Platform → Grid → ℕ → ℕ → ℕ → List EntityState
unfolding query_loop
query_circle_with_coords p g lat lng radius_m =
    map (λ e. e.1) (query_loop p lat lng radius_m g (shards_for_radius p lat lng radius_m))

-- The lengths of a shard's maps, added up.
stripe_sum : ℕ → ℕ → (ℕ → Entries) → ℕ
stripe_sum zero stripe shard = 0
stripe_sum (suc n) stripe shard = length (shard stripe) + stripe_sum n (stripe + 1) shard

-- ShardStats: the number of entries of each shard.
unfoldable pub shard_stats : Grid → ℕ → ℕ
unfolding stripe_sum
shard_stats g i = stripe_sum grid_stripes 0 (g i)

count_loop : ℕ → ℕ → Grid → ℕ
unfolding shard_stats
count_loop zero i g = 0
count_loop (suc n) i g = shard_stats g i + count_loop n (i + 1) g

-- Count
unfoldable pub total : Grid → ℕ
unfolding count_loop
total g = count_loop shard_count 0 g

-- EgressRecords; the early return on an empty shard gives no record either.
unfoldable pub egress_records : Grid → ℕ → List EgressRecord
egress_records g shard_index =
    if shard_stats g shard_index == 0
    then []
    else map (λ e. record { entity_id = e.0; lat = e.1.coord.lat; lng = e.1.coord.lng })
        (shard_entries (g shard_index))
