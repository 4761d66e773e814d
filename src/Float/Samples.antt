-- ===== src/Float/Samples.antt =====
-- A platform and numbers to run the model on. The platform's functions are simple ones that keep the
-- types of Go's: no test depends on their values.
use aerocast.Prelude.{ℕ}
use aerocast.Prelude.Int.{pos}
use aerocast.Float.{Platform}

abbrev pub one : ℕ
one = 0x3ff0_0000_0000_0000

abbrev pub flat : Platform
flat = record {
  sin = λ x. x;
  cos = λ x. one;
  sqrt = λ x. x;
  atan2 = λ y x. y;
  int32_of = λ x. pos 0;
  int_of = λ x. pos 0;
  uint64_of = λ x. 0;
}

-- 37.7749 and -122.4194
abbrev pub bay_lat : ℕ
bay_lat = 0x4042_e32f_ec56_d5d0

abbrev pub bay_lng : ℕ
bay_lng = 0xc05e_9ad7_7318_fc50

-- 40.7128 and -74.006
abbrev pub city_lat : ℕ
city_lat = 0x4044_5b3d_07c8_4b5e

abbrev pub city_lng : ℕ
city_lng = 0xc052_8062_4dd2_f1aa

-- 500
abbrev pub half_km : ℕ
half_km = 0x407f_4000_0000_0000
