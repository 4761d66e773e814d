-- ===== src/Float.antt =====
-- Go's float64, as the bit pattern of an IEEE 754 binary64 number: the arithmetic of the language,
-- rounded to nearest even, and its orders and conversions. Every not-a-number that an operation
-- makes has one pattern. What Go leaves to its math library and to the machine is in `Platform`.
pub mod Order
pub mod Samples
mod Tests
use aerocast.Prelude.{
  ℕ, zero, suc, ◌+◌, ◌-◌, ◌*◌, ◌/◌, ◌%◌, ◌^◌, Bool, true, false, ◌&&◌, ◌||◌, not, xor, ltb, leb,
  ◌==◌, if◌then◌else◌,
}
use aerocast.Prelude.Int.{ℤ, pos, negsuc}

-- math.Sin, math.Cos, math.Sqrt and math.Atan2, and what a conversion gives for a value that the
-- integer type cannot hold, which Go leaves to the machine.
pub record Platform : Type 0 where
  pub sin : ℕ → ℕ
  pub cos : ℕ → ℕ
  pub sqrt : ℕ → ℕ
  pub atan2 : ℕ → ℕ → ℕ
  pub int32_of : ℕ → ℤ
  pub int_of : ℕ → ℤ
  pub uint64_of : ℕ → ℕ

abbrev pub infinity : ℕ
infinity = 0x7ff0_0000_0000_0000

abbrev pub nan : ℕ
nan = 0x7ff8_0000_0000_0001

abbrev sign_bit : ℕ
sign_bit = 0x8000_0000_0000_0000

abbrev pub magnitude : ℕ → ℕ
magnitude x = x % sign_bit

abbrev pub is_negative : ℕ → Bool
is_negative x = leb sign_bit x

abbrev pub is_nan : ℕ → Bool
is_nan x = ltb infinity (magnitude x)

abbrev is_infinite : ℕ → Bool
is_infinite x = magnitude x == infinity

with_sign : Bool → ℕ → ℕ
with_sign s m = if s then sign_bit + m else m

-- The magnitude of a finite number, in units of 2 ^ -1074.
pub units : ℕ → ℕ
units x =
    let e : ℕ = magnitude x / 2 ^ 52 in
    let m : ℕ = magnitude x % 2 ^ 52 in if e == 0 then m else (2 ^ 52 + m) * 2 ^ (e - 1)

-- The number of binary digits, on fuel.
bit_length : ℕ → ℕ → ℕ
bit_length zero n = 0
bit_length (suc fuel) n = let rest = bit_length fuel (n / 2) in if n == 0 then 0 else suc rest

-- The magnitude nearest to num / den units. A product of two numbers has 4,200 binary digits at most.
pub round : ℕ → ℕ → ℕ
unfolding bit_length
round num den =
    let shift : ℕ = bit_length 5000 (num / den) - 53 in
    let d : ℕ = den * 2 ^ shift in
    let q : ℕ = num / d in
    let r : ℕ = num % d in
    let up : Bool = ltb d (2 * r) || (2 * r == d && q % 2 == 1) in
    let m : ℕ = shift * 2 ^ 52 + q + (if up then 1 else 0) in if ltb m infinity then m else infinity

unfoldable pub neg : ℕ → ℕ
neg x = if is_negative x then x - sign_bit else x + sign_bit

-- math.Abs
unfoldable pub abs : ℕ → ℕ
abs x = magnitude x

add_finite : Bool → ℕ → Bool → ℕ → ℕ
unfolding round with_sign
add_finite s m t n =
    if not (xor s t)
    then with_sign s (round (m + n) 1)
    else if m == n
    then 0
    else if ltb n m
    then with_sign s (round (m - n) 1)
    else with_sign t (round (n - m) 1)

unfoldable pub add : ℕ → ℕ → ℕ
unfolding add_finite units
add x y =
    if is_nan x || is_nan y
    then nan
    else if is_infinite x
    then (if is_infinite y && xor (is_negative x) (is_negative y) then nan else x)
    else if is_infinite y
    then y
    else add_finite (is_negative x) (units x) (is_negative y) (units y)

unfoldable pub sub : ℕ → ℕ → ℕ
unfolding add neg
sub x y = add x (neg y)

unfoldable pub mul : ℕ → ℕ → ℕ
unfolding round units with_sign
mul x y =
    let s : Bool = xor (is_negative x) (is_negative y) in
    if is_nan x || is_nan y
    then nan
    else if is_infinite x || is_infinite y
    then (if magnitude x == 0 || magnitude y == 0 then nan else with_sign s infinity)
    else with_sign s (round (units x * units y) (2 ^ 1074))

unfoldable pub div : ℕ → ℕ → ℕ
unfolding round units with_sign
div x y =
    let s : Bool = xor (is_negative x) (is_negative y) in
    if is_nan x || is_nan y
    then nan
    else if is_infinite x
    then (if is_infinite y then nan else with_sign s infinity)
    else if is_infinite y
    then with_sign s 0
    else if magnitude y == 0
    then (if magnitude x == 0 then nan else with_sign s infinity)
    else with_sign s (round (units x * 2 ^ 1074) (units y))

-- The place of a number that is no not-a-number in the order; both zeros have one.
unfoldable pub rank : ℕ → ℕ
rank x = if is_negative x then sign_bit - magnitude x else sign_bit + magnitude x

unfoldable pub lt : ℕ → ℕ → Bool
unfolding rank
lt x y = not (is_nan x) && not (is_nan y) && ltb (rank x) (rank y)

unfoldable pub le : ℕ → ℕ → Bool
unfolding rank
le x y = not (is_nan x) && not (is_nan y) && leb (rank x) (rank y)

unfoldable pub eq : ℕ → ℕ → Bool
unfolding rank
eq x y = not (is_nan x) && not (is_nan y) && rank x == rank y

-- float64(n)
unfoldable pub of_ℕ : ℕ → ℕ
unfolding round
of_ℕ n = round (n * 2 ^ 1074) 1

is_finite : ℕ → Bool
is_finite x = ltb (magnitude x) infinity

abbrev negative : ℕ → ℤ
negative zero = pos 0
negative (suc n) = negsuc n

-- int32(x): towards zero.
unfoldable pub to_int32 : Platform → ℕ → ℤ
unfolding units is_finite
to_int32 p x =
    let n : ℕ = units x / 2 ^ 1074 in
    if is_finite x && ltb n (if is_negative x then 2 ^ 31 + 1 else 2 ^ 31)
    then (if is_negative x then negative n else pos n)
    else p.int32_of x

-- int(math.Floor(x))
unfoldable pub floor_to_int : Platform → ℕ → ℤ
unfolding units is_finite
floor_to_int p x =
    let n : ℕ =
      if is_negative x then (units x + (2 ^ 1074 - 1)) / 2 ^ 1074 else units x / 2 ^ 1074 in
    if is_finite x && ltb n (if is_negative x then 2 ^ 63 + 1 else 2 ^ 63)
    then (if is_negative x then negative n else pos n)
    else p.int_of x

-- uint64(x)
unfoldable pub to_uint64 : Platform → ℕ → ℕ
unfolding units is_finite
to_uint64 p x =
    let n : ℕ = units x / 2 ^ 1074 in
    if is_finite x && ltb n (2 ^ 64) && (not (is_negative x) || n == 0) then n else p.uint64_of x
