-- ===== src/Geofence/Fence.antt =====
-- pkg/geofence/fence.go: circles and polygons. The interface Fence is a data type with a
-- constructor for each of its implementations.
pub mod Ray
use Prim.Native.String.{String}
use aerocast.Prelude.{
  ℕ, zero, suc, Bool, true, false, not, ◌&&◌, xor, List, [], ◌∷◌, length, ltb, if◌then◌else◌,
}
use aerocast.Float
use aerocast.Float.{Platform}
use aerocast.Spatial.Hash.{haversine_m}

pub record Circle : Type 0 where
  pub name_str : String
  pub center_lat : ℕ
  pub center_lng : ℕ
  pub radius_m : ℕ

pub record Vertex : Type 0 where
  pub lat : ℕ
  pub lng : ℕ

pub record Polygon : Type 0 where
  pub name_str : String
  pub vertices : List Vertex
  pub center_lat : ℕ
  pub center_lng : ℕ
  pub bound_radius : ℕ

pub data Fence : Type 0 where
  circle : Circle → Fence
  polygon : Polygon → Fence

unfoldable pub circle_contains : Platform → Circle → ℕ → ℕ → Bool
circle_contains p c lat lng = Float.le (haversine_m p c.center_lat c.center_lng lat lng) c.radius_m

-- sumLat and sumLng.
sum_of : (Vertex → ℕ) → ℕ → List Vertex → ℕ
sum_of f acc [] = acc
sum_of f acc (v ∷ vs) = sum_of f (Float.add acc (f v)) vs

bound_loop : Platform → ℕ → ℕ → ℕ → List Vertex → ℕ
bound_loop p clat clng bound [] = bound
bound_loop p clat clng bound (v ∷ vs) =
    let d : ℕ = haversine_m p clat clng v.lat v.lng in
    bound_loop p clat clng (if Float.lt bound d then d else bound) vs

unfoldable pub new_polygon : Platform → String → List Vertex → Polygon
unfolding sum_of bound_loop
new_polygon p name vs =
    let clat : ℕ = Float.div (sum_of (λ v. v.lat) 0 vs) (Float.of_ℕ (length vs)) in
    let clng : ℕ = Float.div (sum_of (λ v. v.lng) 0 vs) (Float.of_ℕ (length vs)) in
    record {
      name_str = name;
      vertices = vs;
      center_lat = clat;
      center_lng = clng;
      bound_radius = bound_loop p clat clng 0 vs;
    }

-- The test of one edge, from vj to vi.
pub crosses : ℕ → ℕ → Vertex → Vertex → Bool
crosses lat lng vi vj =
    xor (Float.lt lat vi.lat) (Float.lt lat vj.lat)
    && Float.lt lng (
        Float.add
          (Float.div (Float.mul (Float.sub vj.lng vi.lng) (Float.sub lat vi.lat))
            (Float.sub vj.lat vi.lat))
          vi.lng)

-- The vertices that the loop has still to visit, and the one before them.
contains_loop : ℕ → ℕ → Vertex → List Vertex → Bool → Bool
unfolding crosses
contains_loop lat lng vj [] inside = inside
contains_loop lat lng vj (vi ∷ vs) inside =
    contains_loop lat lng vi vs (if crosses lat lng vi vj then not inside else inside)

abbrev pub last_of : Vertex → List Vertex → Vertex
last_of v [] = v
last_of v (w ∷ vs) = last_of w vs

ring_contains : ℕ → ℕ → List Vertex → Bool
unfolding contains_loop
ring_contains lat lng [] = false
ring_contains lat lng (v ∷ vs) = contains_loop lat lng (last_of v vs) (v ∷ vs) false

unfoldable pub polygon_contains : Polygon → ℕ → ℕ → Bool
unfolding ring_contains
polygon_contains p lat lng =
    if ltb (length p.vertices) 3 then false else ring_contains lat lng p.vertices

unfoldable pub name : Fence → String
name (circle c) = c.name_str
name (polygon p) = p.name_str

unfoldable pub contains : Platform → Fence → ℕ → ℕ → Bool
unfolding circle_contains polygon_contains
contains p (circle c) lat lng = circle_contains p c lat lng
contains p (polygon q) lat lng = polygon_contains q lat lng

unfoldable pub bounding_radius : Fence → ℕ
bounding_radius (circle c) = c.radius_m
bounding_radius (polygon p) = p.bound_radius

unfoldable pub center : Fence → ℕ × ℕ
center (circle c) = (c.center_lat, c.center_lng)
center (polygon p) = (p.center_lat, p.center_lng)

unfoldable pub in_bounding_box : Platform → ℕ → ℕ → ℕ → ℕ → ℕ → Bool
in_bounding_box p center_lat center_lng radius_m lat lng =
    let lat_deg : ℕ = Float.div radius_m 0x40fb_2d80_0000_0000 in
    let angle : ℕ = Float.div (Float.mul center_lat 0x4009_21fb_5444_2d18) 0x4066_8000_0000_0000 in
    let lng_deg : ℕ = Float.div radius_m (
      Float.add (Float.mul 0x40fb_2d80_0000_0000 (Float.abs (p.cos angle)))
        0x3ddb_7cdf_d9d7_bdbb) in
    Float.le (Float.sub center_lat lat_deg) lat
    && Float.le lat (Float.add center_lat lat_deg)
    && Float.le (Float.sub center_lng lng_deg) lng
    && Float.le lng (Float.add center_lng lng_deg)
