-- ===== src/Engine/Bloom.antt =====
-- pkg/engine/bloom.go: the filter of the ids of a tick. A uint64 word is its 64 bits. The engine has
-- no such filter: nothing outside this file uses it.
pub mod Membership
use aerocast.Prelude.{ℕ, ◌/◌, ◌%◌, Bool, true, false, ◌&&◌, List, [], ◌∷◌}
use aerocast.Prelude.Array.{update}
use aerocast.Engine.Hash32.{hash1, hash2}

abbrev pub bloom_shards : ℕ
bloom_shards = 64

abbrev pub bits_per_shard : ℕ
bits_per_shard = 2048

-- The bits, by shard, word and place in the word.
abbrev pub TickBloomFilter : Type 0
TickBloomFilter = ℕ → ℕ → ℕ → Bool

-- shard.bits[idx] |= 1 << (bit % 64)
mark : (ℕ → ℕ → Bool) → ℕ → ℕ → ℕ → Bool
mark shard bit = update shard (bit / 64) (update (shard (bit / 64)) (bit % 64) true)

-- shard.bits[idx] & (1 << (bit % 64)) != 0
marked : (ℕ → ℕ → Bool) → ℕ → Bool
marked shard bit = shard (bit / 64) (bit % 64)

unfoldable pub check_and_add : TickBloomFilter → ℕ → TickBloomFilter × Bool
unfolding mark marked
check_and_add f id =
    let shard_idx : ℕ = hash1 id % bloom_shards in
    let bit1 : ℕ = hash1 id % bits_per_shard in
    let bit2 : ℕ = hash2 id % bits_per_shard in
    let shard = f shard_idx in
    (update f shard_idx (mark (mark shard bit1) bit2), marked shard bit1 && marked shard bit2)

unfoldable pub reset : TickBloomFilter → TickBloomFilter
reset f i j k = false

unfoldable pub add_all : TickBloomFilter → List ℕ → TickBloomFilter
add_all f [] = f
add_all f (id ∷ ids) = add_all (check_and_add f id).0 ids
