-- ===== src/Spatial/Tests.antt =====
-- The cells and the grid on concrete positions.
use aerocast.Prelude.{
  true, false, ◌%◌, ℕ, ◌+◌, ◌*◌, ◌<◌, ◌≡◌, ◌≢◌, refl, Option, none, some, ltb, ◌&&◌, if◌then◌else◌,
  arith,
}
use aerocast.Prelude.Assoc.{lookup}
use aerocast.Prelude.Int.{pos}
use aerocast.Prelude.Array.{update}
use aerocast.Prelude.Count.{count}
use aerocast.Binary.Codec.{CoordPacket}
use aerocast.Float
use aerocast.Float.Samples.{flat, bay_lat, bay_lng, city_lat, city_lng, half_km}
use aerocast.Spatial.Hash.{clamp15, cell_key, shard_key, shards_for_radius, haversine_m, box_of}
use aerocast.Spatial.Hash.Cells.{row, column, shard_key-row-column}
use aerocast.Spatial.Hash.Cover.{shards_for_radius_covers}
use aerocast.Spatial.Grid.{Grid, key_of, new_grid, route_with_previous, query_circle}
use aerocast.Spatial.Grid.Tracking.{
  Tracks, new_grid-Tracks, route_with_previous-Tracks, route_with_previous_moves,
}
use aerocast.Spatial.Grid.Race.{route_with_previous_races}
use aerocast.Spatial.Grid.Query.{query_circle-Tracks}

abbrev bay : CoordPacket
bay = record { lng = bay_lng; lat = bay_lat }

abbrev city : CoordPacket
city = record { lng = city_lng; lat = city_lat }

abbrev unknown : ℕ → Option CoordPacket
unknown id = none

-- The grid after the entity 7 has come to the bay.
abbrev one_entity : Grid
one_entity = (route_with_previous flat new_grid 7 bay none).0

abbrev at_bay : ℕ → Option CoordPacket
at_bay = update unknown 7 (some bay)

one_entity-Tracks : Tracks flat one_entity at_bay
one_entity-Tracks = route_with_previous-Tracks flat new_grid unknown 7 bay (new_grid-Tracks flat)

bay_key : key_of flat bay ≡ 178
unfolding shard_key clamp15 cell_key Float.add Float.mul Float.div Float.to_int32
bay_key = refl

city_key : key_of flat city ≡ 180
unfolding shard_key clamp15 cell_key Float.add Float.mul Float.div Float.to_int32
city_key = refl

apart : key_of flat bay ≢ key_of flat city
apart h = omega (arith, h, bay_key, city_key)

not_there : (c : CoordPacket) → unknown 7 ≡ some c → key_of flat c ≢ key_of flat bay
not_there c h = absurd (cc h)

-- Both workers have read that the entity 7 is unknown.
abbrev raced : Grid
raced = (route_with_previous flat (route_with_previous flat new_grid 7 bay none).0 7 city none).0

route_with_previous_races_example :
    (lookup 7 (raced (key_of flat bay) 7) ≡ some (record { coord = bay }))
    × (lookup 7 (raced (key_of flat city) 7) ≡ some (record { coord = city }))
    × ((now : ℕ → Option CoordPacket) → ¬ Tracks flat raced now)
route_with_previous_races_example =
    route_with_previous_races flat new_grid unknown 7 bay city (new_grid-Tracks flat) apart
      not_there

query_circle-Tracks_example : count 7 (query_circle flat one_entity bay_lat bay_lng half_km) ≡ (
    if ltb 0 (count (key_of flat bay) (shards_for_radius flat bay_lat bay_lng half_km))
      && Float.le (haversine_m flat bay_lat bay_lng bay_lat bay_lng) half_km
    then 1
    else 0)
query_circle-Tracks_example =
    query_circle-Tracks flat one_entity at_bay bay_lat bay_lng half_km 7 one_entity-Tracks

shard_key-row-column_example :
    (shard_key flat bay_lat bay_lng ≡ row flat bay_lat * 16 + column flat bay_lng)
    × (row flat bay_lat < 16)
    × (column flat bay_lng < 16)
    × (shard_key flat bay_lat bay_lng < 256)
shard_key-row-column_example = shard_key-row-column flat bay_lat bay_lng

bay_lat_start : (box_of flat bay_lat bay_lng half_km).lat_start ≡ pos 11
unfolding box_of shard_key clamp15 Float.add Float.sub Float.mul Float.div Float.lt
    Float.floor_to_int Float.to_int32
bay_lat_start = refl

bay_lat_end : (box_of flat bay_lat bay_lng half_km).lat_end ≡ pos 11
unfolding box_of shard_key clamp15 Float.add Float.sub Float.mul Float.div Float.lt
    Float.floor_to_int Float.to_int32
bay_lat_end = refl

bay_lng_start : (box_of flat bay_lat bay_lng half_km).lng_start ≡ pos 2
unfolding box_of shard_key clamp15 Float.add Float.sub Float.mul Float.div Float.lt
    Float.floor_to_int Float.to_int32
bay_lng_start = refl

bay_lng_end : (box_of flat bay_lat bay_lng half_km).lng_end ≡ pos 2
unfolding box_of shard_key clamp15 Float.add Float.sub Float.mul Float.div Float.lt
    Float.floor_to_int Float.to_int32
bay_lng_end = refl

bay_row : row flat bay_lat ≡ 11
unfolding box_of shard_key clamp15 Float.add Float.sub Float.mul Float.div Float.lt
    Float.floor_to_int Float.to_int32
bay_row = refl

bay_column : column flat bay_lng ≡ 2
unfolding box_of shard_key clamp15 Float.add Float.sub Float.mul Float.div Float.lt
    Float.floor_to_int Float.to_int32
bay_column = refl

shards_for_radius_covers_example :
    count (shard_key flat bay_lat bay_lng) (shards_for_radius flat bay_lat bay_lng half_km) ≡ 1
shards_for_radius_covers_example =
    shards_for_radius_covers flat bay_lat bay_lng half_km bay_lat bay_lng
      (rw (bay_lat_start, bay_row) (omega arith)) (rw (bay_lng_start, bay_column) (omega arith))
      (rw (bay_lat_end, bay_row) (omega arith)) (rw (bay_lng_end, bay_column) (omega arith))

route_with_previous_moves_example :
    Tracks flat
      (route_with_previous flat one_entity 7 city (some bay)).0
      (update at_bay 7 (some city))
    × ((route_with_previous flat one_entity 7 city (some bay)).1
        ≡ elim (lookup 7 (one_entity (key_of flat city) (7 % 16))) [
          | none ↦ true
          | some state ↦ false
        ])
route_with_previous_moves_example =
    route_with_previous_moves flat one_entity at_bay 7 city one_entity-Tracks
