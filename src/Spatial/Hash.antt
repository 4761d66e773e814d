-- ===== src/Spatial/Hash.antt =====
-- pkg/spatial/hash.go and types.go: the cell of a position, distances, and the cells near a circle.
pub mod Cells
pub mod Loops
pub mod Cover
use aerocast.Prelude.{
  ℕ, zero, suc, ◌+◌, ◌-◌, ◌*◌, ◌/◌, ◌%◌, ◌≤◌, Bool, true, false, List, [], ◌∷◌, ◌++◌, bit_or, ltb,
  leb, if◌then◌else◌,
}
use aerocast.Prelude.Int.{ℤ, pos, negsuc, ltb_ℤ, pos_part, neg_part, ◌+ℤ◌}
use aerocast.Prelude.Array.{update}
use aerocast.Float
use aerocast.Float.{Platform}

abbrev pub shard_count : ℕ
shard_count = 256

abbrev f1 : ℕ
f1 = 0x3ff0_0000_0000_0000

abbrev f2 : ℕ
f2 = 0x4000_0000_0000_0000

abbrev f16 : ℕ
f16 = 0x4030_0000_0000_0000

abbrev f90 : ℕ
f90 = 0x4056_8000_0000_0000

abbrev f180 : ℕ
f180 = 0x4066_8000_0000_0000

abbrev f360 : ℕ
f360 = 0x4076_8000_0000_0000

-- math.Pi
abbrev pi : ℕ
pi = 0x4009_21fb_5444_2d18

-- uint8(x<<4) | uint8(y)
unfoldable pub cell_key : ℕ → ℕ → ℕ
cell_key x y = bit_or (x * 16 % 256) (y % 256)

-- The two guards that bring an index into 0 to 15.
unfoldable pub clamp15 : ℤ → ℕ
clamp15 x =
    let upper : ℤ = if ltb_ℤ (pos 15) x then pos 15 else x in
    pos_part (if ltb_ℤ upper (pos 0) then pos 0 else upper)

unfoldable pub shard_key : Platform → ℕ → ℕ → ℕ
unfolding cell_key clamp15
shard_key p lat lng =
    let x : ℤ = Float.to_int32 p (Float.mul (Float.div (Float.add lat f90) f180) f16) in
    let y : ℤ = Float.to_int32 p (Float.mul (Float.div (Float.add lng f180) f360) f16) in
    cell_key (clamp15 x) (clamp15 y)

abbrev earth_radius_m : ℕ
earth_radius_m = 0x4158_4dae_0000_0000

-- d * math.Pi / 180.0
radians : ℕ → ℕ
radians d = Float.div (Float.mul d pi) f180

-- 2 * atan2(sqrt(a), sqrt(1-a)), scaled to the earth.
arc : Platform → ℕ → ℕ
arc p a = Float.mul earth_radius_m (Float.mul f2 (p.atan2 (p.sqrt a) (p.sqrt (Float.sub f1 a))))

unfoldable pub haversine_m : Platform → ℕ → ℕ → ℕ → ℕ → ℕ
unfolding radians arc
haversine_m p lat1 lng1 lat2 lng2 =
    let d_lat : ℕ = radians (Float.sub lat2 lat1) in
    let d_lng : ℕ = radians (Float.sub lng2 lng1) in
    let sin_d_lat : ℕ = p.sin (Float.div d_lat f2) in
    let sin_d_lng : ℕ = p.sin (Float.div d_lng f2) in
    let cosines : ℕ = Float.mul (p.cos (radians lat1)) (p.cos (radians lat2)) in
    arc p (
      Float.add (Float.mul sin_d_lat sin_d_lat) (Float.mul (Float.mul cosines sin_d_lng) sin_d_lng))

unfoldable pub haversine_m_precomputed : Platform → ℕ → ℕ → ℕ → ℕ → ℕ → ℕ
unfolding radians arc
haversine_m_precomputed p lat1_rad cos_lat1 lng1 lat2 lng2 =
    let d_lat : ℕ = radians (Float.sub lat2 (Float.div (Float.mul lat1_rad f180) pi)) in
    let d_lng : ℕ = radians (Float.sub lng2 lng1) in
    let sin_d_lat : ℕ = p.sin (Float.div d_lat f2) in
    let sin_d_lng : ℕ = p.sin (Float.div d_lng f2) in
    let cosines : ℕ = Float.mul cos_lat1 (p.cos (radians lat2)) in
    arc p (
      Float.add (Float.mul sin_d_lat sin_d_lat) (Float.mul (Float.mul cosines sin_d_lng) sin_d_lng))

-- The array `seen` and the slice `result` of ShardsForRadius.
pub record Found : Type 0 where
  pub seen : ℕ → Bool
  pub result : List ℕ

abbrev pub nothing : Found
nothing = record { seen = λ k. false; result = [] }

-- i & 0x0F, in two's complement.
unfoldable pub low4 : ℤ → ℕ
low4 (pos n) = n % 16
low4 (negsuc n) = 15 - n % 16

-- The body of the inner loop, at one key.
visit : Found → ℕ → Found
visit s key =
    if s.seen key
    then s
    else record { seen = update s.seen key true; result = s.result ++ (key ∷ []) }

-- How often `for i := from; i <= to; i++` runs. No index here reaches the largest int, as the floor
-- of a float64 below 2 ^ 63 does not.
unfoldable pub rounds : ℤ → ℤ → ℕ
rounds from to = (pos_part to + neg_part from + 1) - (pos_part from + neg_part to)

-- The rounds left, the row and the next column.
pub cols_loop : ℕ → ℕ → ℤ → Found → Found
unfolding ◌+ℤ◌
cols_loop zero x iy s = s
cols_loop (suc n) x iy s = cols_loop n x (iy +ℤ pos 1) (visit s (cell_key x (low4 iy)))

pub rows_loop : ℕ → ℤ → ℕ → ℤ → Found → Found
unfolding cols_loop ◌+ℤ◌
rows_loop zero ix cols iy s = s
rows_loop (suc n) ix cols iy s = rows_loop n (ix +ℤ pos 1) cols iy (cols_loop cols (low4 ix) iy s)

-- The index ranges that ShardsForRadius computes: row and column from and to.
pub record Box : Type 0 where
  pub lat_start : ℤ
  pub lat_end : ℤ
  pub lng_start : ℤ
  pub lng_end : ℤ

unfoldable pub box_of : Platform → ℕ → ℕ → ℕ → Box
unfolding radians
box_of p lat lng radius_m =
    let lat_deg_per_m : ℕ = 0x3ee2_d6c5_7a53_0bc2 in
    let lng_deg_per_m : ℕ = Float.div f1 (Float.mul 0x40fb_2d80_0000_0000 (p.cos (radians lat))) in
    let d_lat : ℕ = Float.mul radius_m lat_deg_per_m in
    let d_lng : ℕ = Float.mul radius_m lng_deg_per_m in
    let low : ℕ = Float.sub lat d_lat in
    let high : ℕ = Float.add lat d_lat in
    let lat_min : ℕ = if Float.lt low (Float.neg f90) then Float.neg f90 else low in
    let lat_max : ℕ = if Float.lt f90 high then f90 else high in
    let lat_step : ℕ = 0x4026_8000_0000_0000 in
    let lng_step : ℕ = 0x4036_8000_0000_0000 in
    record {
      lat_start = Float.floor_to_int p (Float.div (Float.add lat_min f90) lat_step);
      lat_end = Float.floor_to_int p (Float.div (Float.add lat_max f90) lat_step);
      lng_start = Float.floor_to_int p (Float.div (Float.add (Float.sub lng d_lng) f180) lng_step);
      lng_end = Float.floor_to_int p (Float.div (Float.add (Float.add lng d_lng) f180) lng_step);
    }

unfoldable pub cells_in : Box → List ℕ
unfolding rows_loop rounds visit
cells_in b =
    (rows_loop (rounds b.lat_start b.lat_end) b.lat_start (rounds b.lng_start b.lng_end) b.lng_start
      nothing).result

unfoldable pub shards_for_radius : Platform → ℕ → ℕ → ℕ → List ℕ
unfolding cells_in box_of
shards_for_radius p lat lng radius_m = cells_in (box_of p lat lng radius_m)
