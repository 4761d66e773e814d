-- ===== src/Geofence/Tests.antt =====
-- Fences, the store and moves on concrete positions.
use Prim.Native.String.{String}
use aerocast.Prelude.{
  ℕ, List, ◌%◌, ◌≡◌, refl, true, false, [], ◌∷◌, ◌++◌, length, none, some, ltb, ◌==◌, if◌then◌else◌,
}
use aerocast.Binary.Codec.{CoordPacket}
use aerocast.Float.Samples.{one, flat, bay_lat, bay_lng, city_lat, city_lng, half_km}
use aerocast.Float
use aerocast.Prelude.Count.{count}
use aerocast.Spatial.Hash.{low4, clamp15, haversine_m, shard_key, shards_for_radius, box_of}
use aerocast.Spatial.Grid.{key_of}
use aerocast.Geofence.Fence.{
  center, bounding_radius, Fence, circle, Vertex, Polygon, circle_contains, contains,
  polygon_contains, new_polygon,
}
use aerocast.Geofence.Evaluate.Called.{on_events, fresh, called_all, evaluate_move-called}
use aerocast.Geofence.Fence.Ray.{meetings, polygon_contains-meetings}
use aerocast.Geofence.Store.{new_store, register_all}
use aerocast.Geofence.Store.Index.{covers}
use aerocast.Geofence.Evaluate.{Evaluator, FenceEvent, evaluate_move, exit}
use aerocast.Geofence.Evaluate.Events.{crossing, was_inside, expected, exit_missed}

abbrev bay : CoordPacket
bay = record { lng = bay_lng; lat = bay_lat }

abbrev city : CoordPacket
city = record { lng = city_lng; lat = city_lat }

abbrev home : Fence
home =
    circle
      (record { name_str = "home"; center_lat = bay_lat; center_lng = bay_lng; radius_m = half_km })

-- A callback whose effect is the event itself.
abbrev log : Evaluator FenceEvent
log = record { callbacks = []; global_callback = some (λ ev. ev ∷ []) }

inside : contains flat home bay_lat bay_lng ≡ true
unfolding contains circle_contains haversine_m Float.add Float.sub Float.mul Float.div Float.lt
    Float.le Float.eq Float.floor_to_int Float.to_int32
inside = refl

outside : contains flat home city_lat city_lng ≡ false
unfolding contains circle_contains haversine_m Float.add Float.sub Float.mul Float.div Float.lt
    Float.le Float.eq Float.floor_to_int Float.to_int32
outside = refl

not_filed : covers flat (key_of flat city) home ≡ false
unfolding shard_key shards_for_radius box_of clamp15 low4 count center bounding_radius Float.add
    Float.sub Float.mul Float.div Float.lt Float.le Float.eq Float.floor_to_int Float.to_int32
not_filed = refl

exit_missed_example :
    (crossing (was_inside flat (some bay) home) (contains flat home city_lat city_lng) ≡ some exit)
    × (evaluate_move flat log
          (register_all flat new_store ([] ++ (home ∷ [])))
          7
          (some bay)
          city
          100
        ≡ evaluate_move flat log (register_all flat new_store ([] ++ [])) 7 (some bay) city 100)
exit_missed_example = exit_missed flat log [] [] home 7 bay city 100 inside outside not_filed

filed_at_bay : covers flat (key_of flat bay) home ≡ true
unfolding shard_key shards_for_radius box_of clamp15 low4 count center bounding_radius Float.add
    Float.sub Float.mul Float.div Float.lt Float.le Float.eq Float.floor_to_int Float.to_int32
filed_at_bay = refl

abbrev corner : Vertex
corner = record { lat = 0; lng = 0 }

abbrev north : Vertex
north = record { lat = one; lng = 0 }

abbrev east : Vertex
east = record { lat = 0; lng = one }

abbrev triangle : Polygon
triangle = new_polygon flat "triangle" (corner ∷ north ∷ east ∷ [])

triangle_vertices : triangle.vertices ≡ corner ∷ north ∷ east ∷ []
unfolding new_polygon
triangle_vertices = refl

abbrev turned : Polygon
turned = new_polygon flat "turned" (north ∷ east ∷ corner ∷ [])

turned_vertices : turned.vertices ≡ north ∷ east ∷ corner ∷ []
unfolding new_polygon
turned_vertices = refl

-- 0.25
abbrev quarter : ℕ
quarter = 0x3fd0_0000_0000_0000

-- Two functions, one of them for the fence `home`.
abbrev registered : List (String × (FenceEvent → List FenceEvent))
registered = ("home", λ ev. ev ∷ ev ∷ []) ∷ ("away", λ ev. ev ∷ []) ∷ []

evaluate_move-called_example :
    evaluate_move flat
      (on_events (fresh (some (λ ev. ev ∷ []))) registered)
      (register_all flat new_store (home ∷ []))
      7
      none
      bay
      100
    ≡ some (
      expected flat 7 none bay 100 (home ∷ []),
      called_all (some (λ ev. ev ∷ [])) registered (expected flat 7 none bay 100 (home ∷ [])),
    )
evaluate_move-called_example =
    evaluate_move-called flat (some (λ ev. ev ∷ [])) registered (home ∷ []) 7 none bay 100

polygon_contains-meetings_example : polygon_contains triangle quarter quarter ≡ (
    if ltb (length (corner ∷ north ∷ [])) 2
    then false
    else meetings quarter quarter east ((corner ∷ north ∷ []) ++ (east ∷ [])) % 2 == 1)
polygon_contains-meetings_example =
    polygon_contains-meetings triangle (corner ∷ north ∷ []) east quarter quarter triangle_vertices
