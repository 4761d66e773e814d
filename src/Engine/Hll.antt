-- ===== src/Engine/Hll.antt =====
-- pkg/engine/hll.go: 64 registers that estimate how many entities a shard has seen.
pub mod Registers
use Prim.Native.Nat.{bit_or as or_bits}
use aerocast.Prelude.{
  ℕ, zero, suc, ◌+◌, ◌-◌, ◌*◌, ◌/◌, ◌%◌, ◌^◌, List, [], ◌∷◌, ltb, ◌==◌, if◌then◌else◌,
}
use aerocast.Prelude.Array.{update}
use aerocast.Float
use aerocast.Float.{Platform}
use aerocast.Engine.Hash32.{hash2}

abbrev pub hll_registers : ℕ
hll_registers = 64

abbrev pub HyperLogLog : Type 0
HyperLogLog = ℕ → ℕ

-- The binary digits of a number below 2 ^ fuel.
digit_count : ℕ → ℕ → ℕ
digit_count zero n = 0
digit_count (suc fuel) n = let rest = digit_count fuel (n / 2) in if n == 0 then 0 else suc rest

-- bits.LeadingZeros32
leading_zeros32 : ℕ → ℕ
unfolding digit_count
leading_zeros32 x = 32 - digit_count 32 x

-- hash >> (32 - 6)
pub register_of : ℕ → ℕ
register_of id = hash2 id / 2 ^ 26

-- uint8(bits.LeadingZeros32(remaining)) + 1
pub value_of : ℕ → ℕ
unfolding leading_zeros32
value_of id = (leading_zeros32 (or_bits (hash2 id * 2 ^ 6 % 2 ^ 32) 0x3f) % 256 + 1) % 256

unfoldable pub add : HyperLogLog → ℕ → HyperLogLog
unfolding register_of value_of
add h id =
    if ltb (h (register_of id)) (value_of id) then update h (register_of id) (value_of id) else h

unfoldable pub add_all : HyperLogLog → List ℕ → HyperLogLog
add_all h [] = h
add_all h (id ∷ ids) = add_all (add h id) ids

-- The registers left, and the next one: sum += 1.0 / float64(uint64(1)<<v)
sum_loop : ℕ → ℕ → HyperLogLog → ℕ → ℕ
sum_loop zero i h sum = sum
sum_loop (suc n) i h sum =
    sum_loop n (i + 1) h
      (Float.add sum (Float.div 0x3ff0_0000_0000_0000 (Float.of_ℕ (2 ^ h i % 2 ^ 64))))

unfoldable pub estimate : Platform → HyperLogLog → ℕ
unfolding sum_loop
estimate p h = Float.to_uint64 p (Float.div 0x40a6_b020_c49b_a5e3 (sum_loop hll_registers 0 h 0))

unfoldable pub reset : HyperLogLog → HyperLogLog
reset h i = 0
