-- ===== src/Engine/Hash32.antt =====
-- The two multiplicative hashes of an entity, in uint32 arithmetic.
use aerocast.Prelude.{ℕ, ◌*◌, ◌%◌, ◌^◌}

-- uint32(id * 0x85ebca6b)
abbrev pub hash1 : ℕ → ℕ
hash1 id = id * 0x85ebca6b % 2 ^ 32

-- uint32(id * 0xc2b2ae35)
abbrev pub hash2 : ℕ → ℕ
hash2 id = id * 0xc2b2ae35 % 2 ^ 32
