-- ===== src/Prelude/Powers.antt =====
-- The bits that a number shares with the one before it, and powers of 2.
use Prim.Native.Nat.{
  ℕ, zero, suc, ◌+◌, ◌-◌, ◌*◌, ◌/◌, ◌%◌, ◌^◌, ◌≤◌, ◌<◌, min, digits, bit_and, bit_and-bitwise,
}
use mathlib.Core.Path.{◌≡◌, refl, ap}
use mathlib.Core.Logic.{inl, inr}
use native.Mathlib.Omega.{arith}
use native.Mathlib.Nat.{pow-suc, pow-le-pow_right}
use aerocast.Prelude.Tests.{◌==◌, leb, Bool-cases}

shared : ℕ → ℕ → ℕ → ℕ
shared fuel = digits (λ rest. zero) min fuel

shared_nothing : (fuel w : ℕ) → shared fuel 0 w ≡ 0
unfolding shared
shared_nothing zero w = refl
shared_nothing (suc fuel) w = refl

-- Fuel that is no less than the first number is enough.
shared_enough : (f g v w : ℕ) → v ≤ f → v ≤ g → shared f v w ≡ shared g v w
unfolding shared
shared_enough f g zero w vf vg = omega (arith, shared_nothing f w, shared_nothing g w)
shared_enough (suc f) (suc g) (suc v) w vf vg =
    omega (arith, shared_enough f g (suc v / 2) (w / 2) (omega arith) (omega arith))
shared_enough zero g (suc v) w vf vg = absurd (omega arith)
shared_enough (suc f) zero (suc v) w vf vg = absurd (omega arith)

bit_and-shared : (v w : ℕ) → bit_and v w ≡ shared v v w
unfolding shared
bit_and-shared v w = bit_and-bitwise v w

-- The lowest bit apart from the others.
pub bit_and_halves : (v w : ℕ) → bit_and v w ≡ min (v % 2) (w % 2) + 2 * bit_and (v / 2) (w / 2)
bit_and_halves zero w = omega (
  arith,
  bit_and-shared 0 w,
  shared_nothing 0 w,
  bit_and-shared 0 (w / 2),
  shared_nothing 0 (w / 2),
)
bit_and_halves (suc v) w = omega (
  arith,
  bit_and-shared (suc v) w,
  bit_and-shared (suc v / 2) (w / 2),
  top_bit,
  shared_enough v (suc v / 2) (suc v / 2) (w / 2) (omega arith) (omega arith),
)
  where
    top_bit : shared (suc v) (suc v) w ≡ shared v (suc v / 2) (w / 2) * 2 + min (suc v % 2) (w % 2)
    top_bit = unfold shared in refl

bit_and_self : (fuel v : ℕ) → v ≤ fuel → bit_and v v ≡ v
bit_and_self fuel zero h = omega (arith, bit_and-shared 0 0, shared_nothing 0 0)
bit_and_self zero (suc v) h = absurd (omega arith)
bit_and_self (suc fuel) (suc v) h =
    omega (arith, bit_and_halves (suc v) (suc v), bit_and_self fuel (suc v / 2) (omega arith))

-- A number that shares no bit with the one before it is a power of 2.
even_power : (v k : ℕ) → v % 2 ≡ 0 → v / 2 ≡ 2 ^ k → (j : ℕ) × (v ≡ 2 ^ j)
even_power v k even half = (suc k, omega (arith, half, pow-suc 2 k))

half_before : (v : ℕ) → 1 < v → v % 2 ≡ 0 → bit_and v (v - 1) ≡ 0 → bit_and (v / 2) (v / 2 - 1) ≡ 0
half_before v h even none_shared =
    let same : (v - 1) / 2 ≡ v / 2 - 1 = omega arith in
    omega (arith, bit_and_halves v (v - 1), ap (bit_and (v / 2)) same)

odd_shares : (v : ℕ) → 1 < v → v % 2 ≡ 1 → 0 < bit_and v (v - 1)
odd_shares v h odd =
    let same : (v - 1) / 2 ≡ v / 2 = omega arith in
    omega (
      arith,
      bit_and_halves v (v - 1),
      ap (bit_and (v / 2)) same,
      bit_and_self (v / 2) (v / 2) (omega arith),
    )

power_within : (fuel v : ℕ) → v ≤ fuel → 0 < v → bit_and v (v - 1) ≡ 0 → (k : ℕ) × (v ≡ 2 ^ k)
power_within fuel zero h pos_v none_shared = absurd (omega arith)
power_within zero (suc v) h pos_v none_shared = absurd (omega arith)
power_within (suc fuel) (suc v) h pos_v none_shared = elim (Bool-cases (v == 0)) [
  | inl one ↦ (0, ground (arith, one))
  | inr more ↦ elim (Bool-cases (suc v % 2 == 0)) [
    | inl even ↦
        let (k, half) =
          power_within fuel (suc v / 2) (ground arith) (ground (arith, more))
            (half_before (suc v) (ground (arith, more)) (ground (arith, even)) none_shared) in
        even_power (suc v) k (ground (arith, even)) half
    | inr odd ↦ absurd (
        omega (arith, none_shared, odd_shares (suc v) (ground (arith, more)) (ground (arith, odd))))
  ]
]

pub power_of_2 : (v : ℕ) → 0 < v → bit_and v (v - 1) ≡ 0 → (k : ℕ) × (v ≡ 2 ^ k)
power_of_2 v pos_v none_shared = power_within v v (omega arith) pos_v none_shared

-- Powers of 2 are in the order of their exponents.
pub exponent-le : (j k : ℕ) → 2 ^ j < 2 ^ suc k → j ≤ k
exponent-le j k h = elim (Bool-cases (leb j k)) [
  | inl small ↦ ground (arith, small)
  | inr large ↦
      let above : suc k ≤ j = ground (arith, large) in
      absurd (omega (arith, h, pow-le-pow_right {n = 2} (omega arith) above))
]

-- A power of 2 shares no bit with the number before it.
pub power_shares_none : (k : ℕ) → bit_and (2 ^ k) (2 ^ k - 1) ≡ 0
power_shares_none zero = refl
power_shares_none (suc k) =
    let half : 2 ^ suc k / 2 ≡ 2 ^ k = omega (arith, pow-suc 2 k) in
    let before : (2 ^ suc k - 1) / 2 ≡ 2 ^ k - 1 = omega (arith, pow-suc 2 k) in
    omega (
      arith,
      pow-suc 2 k,
      bit_and_halves (2 ^ suc k) (2 ^ suc k - 1),
      ap (λ v. bit_and v ((2 ^ suc k - 1) / 2)) half,
      ap (bit_and (2 ^ k)) before,
      power_shares_none k,
    )
