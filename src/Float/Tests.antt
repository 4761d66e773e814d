-- ===== src/Float/Tests.antt =====
-- The arithmetic at concrete numbers.
use aerocast.Prelude.{◌≡◌, refl}
use aerocast.Prelude.Int.{negsuc}
use aerocast.Float.{add, sub, mul, div, of_ℕ, floor_to_int, to_int32, Platform}

sum_of_tenths : add 0x3fb9_9999_9999_999a 0x3fc9_9999_9999_999a ≡ 0x3fd3_3333_3333_3334
unfolding add
sum_of_tenths = refl

difference : sub 0x3fb9_9999_9999_999a 0x3fc9_9999_9999_999a ≡ 0xbfb9_9999_9999_999a
unfolding sub
difference = refl

product : mul 0x01a5_6e1f_c2f8_f359 0xbbc7_9ca1_0c92_4223 ≡ 0x8000_0000_0000_07e8
unfolding mul
product = refl

product_overflow : mul 0x7fe1_ccf3_85eb_c8a0 0x4024_0000_0000_0000 ≡ 0x7ff0_0000_0000_0000
unfolding mul
product_overflow = refl

one_third : div (of_ℕ 1) (of_ℕ 3) ≡ 0x3fd5_5555_5555_5555
unfolding div of_ℕ
one_third = refl

column :
    mul
      (div (add 0xc05e_9ad7_7318_fc50 0x4066_8000_0000_0000) 0x4076_8000_0000_0000)
      0x4030_0000_0000_0000
    ≡ 0x4004_791d_3a2c_1c00
unfolding add div mul
column = refl

floor_negative : (p : Platform) → floor_to_int p 0xc004_0000_0000_0000 ≡ negsuc 2
unfolding floor_to_int
floor_negative p = refl

truncate_negative : (p : Platform) → to_int32 p 0xc004_0000_0000_0000 ≡ negsuc 1
unfolding to_int32
truncate_negative p = refl
