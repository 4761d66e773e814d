-- ===== src/Float/Order.antt =====
-- The orders on floats.
use aerocast.Prelude.{ℕ, ◌≡◌, true, arith}
use aerocast.Float.{lt, le}

pub lt-le : (x y : ℕ) → lt x y ≡ true → le x y ≡ true
unfolding lt le
lt-le x y h = ground arith

pub le_trans : (x y z : ℕ) → le x y ≡ true → le y z ≡ true → le x z ≡ true
unfolding le
le_trans x y z h k = ground arith
