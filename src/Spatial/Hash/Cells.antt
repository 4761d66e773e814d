-- ===== src/Spatial/Hash/Cells.antt =====
-- A cell is a row and a column of sixteen.
use aerocast.Prelude.{
  false, if◌then◌else◌, ℕ, zero, suc, ◌+◌, ◌*◌, ◌<◌, ◌≡◌, refl, Bool, true, arith, ◌==◌, ==_iff,
}
use aerocast.Prelude.Int.{ℤ, pos, negsuc}
use aerocast.Float
use aerocast.Float.{Platform}
use aerocast.Spatial.Hash.{shard_key, cell_key, clamp15, low4, f16, f90, f180, f360}

-- Whether a test passes at every number below a bound, which evaluation decides.
passes : (ℕ → Bool) → ℕ → Bool
passes test zero = true
passes test (suc bound) = let before = passes test bound in if test bound then before else false

passes_lem :
    (test : ℕ → Bool) (bound at : ℕ) → at < bound → passes test bound ≡ true → test at ≡ true
unfolding passes
passes_lem test zero at below every = absurd (omega arith)
passes_lem test (suc bound) at below every = ground (arith, passes_lem test bound at)

abbrev is_sum : ℕ → ℕ → Bool
is_sum x y = cell_key x y == x * 16 + y

whole_table : passes (λ x. passes (is_sum x) 16) 16 ≡ true
unfolding passes cell_key
whole_table = refl

-- The two bit fields do not overlap.
pub cell_key_lem : (x y : ℕ) → x < 16 → y < 16 → cell_key x y ≡ x * 16 + y
cell_key_lem x y hx hy =
    (==_iff _ _).0
      (passes_lem (is_sum x) 16 y hy (passes_lem (λ x. passes (is_sum x) 16) 16 x hx whole_table))

pub clamp15-lt : (x : ℤ) → clamp15 x < 16
unfolding clamp15
clamp15-lt x = ground arith

pub low4-lt : (i : ℤ) → low4 i < 16
unfolding low4
low4-lt (pos n) = omega arith
low4-lt (negsuc n) = omega arith

-- The row and the column of a position.
abbrev pub row : Platform → ℕ → ℕ
row p lat = clamp15 (Float.to_int32 p (Float.mul (Float.div (Float.add lat f90) f180) f16))

abbrev pub column : Platform → ℕ → ℕ
column p lng = clamp15 (Float.to_int32 p (Float.mul (Float.div (Float.add lng f180) f360) f16))

-- ShardKey of any two float64 values, not-a-numbers and infinities included and on every machine, is
-- 16 times a row below 16 plus a column below 16, so it is an index into the 256 shards. The row is
-- the integer part of (lat + 90) / 180 * 16 and the column that of (lng + 180) / 360 * 16, each
-- brought into 0 to 15.
pub shard_key-row-column :
    (p : Platform) (lat lng : ℕ)
    → (shard_key p lat lng ≡ row p lat * 16 + column p lng)
      × (row p lat < 16)
      × (column p lng < 16)
      × (shard_key p lat lng < 256)
unfolding shard_key
shard_key-row-column p lat lng = (key, low_row, low_column, omega (arith, key, low_row, low_column))
  where
    low_row : row p lat < 16
    low_row = clamp15-lt (Float.to_int32 p (Float.mul (Float.div (Float.add lat f90) f180) f16))

    low_column : column p lng < 16
    low_column = clamp15-lt (Float.to_int32 p (Float.mul (Float.div (Float.add lng f180) f360) f16))

    key : shard_key p lat lng ≡ row p lat * 16 + column p lng
    key = cell_key_lem (row p lat) (column p lng) low_row low_column

pub shard_key-lt : (p : Platform) (lat lng : ℕ) → shard_key p lat lng < 256
shard_key-lt p lat lng = (shard_key-row-column p lat lng).3

pub cell_key-lt : (x y : ℕ) → x < 16 → y < 16 → cell_key x y < 256
cell_key-lt x y hx hy = omega (arith, cell_key_lem x y hx hy)

pub low4-pos : (n : ℕ) → n < 16 → low4 (pos n) ≡ n
unfolding low4
low4-pos n h = omega arith
