-- ===== src/Geofence/Store.antt =====
-- pkg/geofence/store.go: the registered fences, and for each shard the indices of those near it.
pub mod Index
use aerocast.Prelude.{
  ◌>>=◌, ℕ, zero, suc, List, [], ◌∷◌, ◌++◌, length, get_elem?, Option, none, some,
}
use aerocast.Prelude.Array.{update}
use aerocast.Float.{Platform}
use aerocast.Spatial.Hash.{shard_key, shards_for_radius}
use aerocast.Geofence.Fence.{Fence, center, bounding_radius}

pub record Store : Type 0 where
  pub fences : List Fence
  pub index : ℕ → List ℕ

unfoldable pub new_store : Store
new_store = record { fences = []; index = λ key. [] }

-- `for _, key := range shardKeys { s.index[key] = append(s.index[key], idx) }`
index_loop : ℕ → List ℕ → (ℕ → List ℕ) → ℕ → List ℕ
index_loop idx [] index = index
index_loop idx (key ∷ keys) index = index_loop idx keys (update index key (index key ++ (idx ∷ [])))

-- The cells under which Register files a fence.
abbrev pub cells_of : Platform → Fence → List ℕ
cells_of p f = shards_for_radius p (center f).0 (center f).1 (bounding_radius f)

unfoldable pub register : Platform → Store → Fence → Store
unfolding index_loop
register p s f = record {
  fences = s.fences ++ (f ∷ []);
  index = index_loop (length s.fences) (cells_of p f) s.index;
}

-- `result[i] = s.fences[idx]` for every index; `none` is the panic on an index out of range.
fetch : List Fence → List ℕ → Option (List Fence)
fetch fences [] = some []
fetch fences (idx ∷ rest) = do f ← get_elem? fences idx; fs ← fetch fences rest; some (f ∷ fs)

unfoldable pub fences_near : Platform → Store → ℕ → ℕ → Option (List Fence)
unfolding fetch
fences_near p s lat lng = fetch s.fences (s.index (shard_key p lat lng))

unfoldable pub all : Store → List Fence
all s = s.fences

unfoldable pub count_fences : Store → ℕ
count_fences s = length s.fences

-- A sequence of registrations.
unfoldable pub register_all : Platform → Store → List Fence → Store
register_all p s [] = s
register_all p s (f ∷ fs) = register_all p (register p s f) fs
