-- ===== src/Spatial/Hash/Cover.antt =====
-- ShardsForRadius: which cells its loops collect.
use aerocast.Prelude.{ℕ, ◌+◌, ◌-◌, ◌≤◌, ◌<◌, ◌≡◌, ◌∙◌, refl, sym, ap, inl, inr, length, All, arith}
use aerocast.Prelude.Int.{ℤ, pos, ◌+ℤ◌, ◌≤ℤ◌, int_laws, pos_part, neg_part}
use aerocast.Prelude.Count.{count, IsDistinct, length-le_of_distinct}
use aerocast.Float.{Platform}
use aerocast.Spatial.Hash.{
  Found, nothing, Box, cells_in, box_of, shards_for_radius, rows_loop, rounds, low4, cell_key,
  shard_key,
}
use aerocast.Spatial.Hash.Loops.{
  Agrees, InBlock, rows_loop-Agrees, rows_loop_found, rows_loop_marks, All-of_count,
}
use mathlib.Core.Path.{ap₂}
use aerocast.Spatial.Hash.Cells.{
  cell_key-lt, low4-lt, low4-pos, cell_key_lem, row, column, shard_key-row-column,
}

-- k is the key of a cell whose row and column indices, modulo 16, lie in the box.
abbrev pub InBox : Box → ℕ → Type 0
InBox b k =
    InBlock (rounds b.lat_start b.lat_end) b.lat_start (rounds b.lng_start b.lng_end) b.lng_start k

all_loops : Box → Found
all_loops b =
    rows_loop (rounds b.lat_start b.lat_end) b.lat_start (rounds b.lng_start b.lng_end) b.lng_start
      nothing

all_loops-Agrees : (b : Box) → Agrees (all_loops b)
unfolding all_loops
all_loops-Agrees b =
    rows_loop-Agrees (rounds b.lat_start b.lat_end) b.lat_start (rounds b.lng_start b.lng_end)
      b.lng_start nothing (λ k. unfold count in refl)

InBlock-lt : (n : ℕ) (ix : ℤ) (cols : ℕ) (iy : ℤ) (k : ℕ) → InBlock n ix cols iy k → k < 256
InBlock-lt n ix cols iy k (i, hi, (j, hj, e)) =
    rw e (cell_key-lt (low4 (ix +ℤ pos i)) (low4 (iy +ℤ pos j)) (low4-lt _) (low4-lt _))

-- The loops of ShardsForRadius collect exactly the keys of the cells in the box of indices, however
-- often the box wraps round the sixteen rows and columns, and no key twice.
pub cells_in-InBox :
    (b : Box) (k : ℕ)
    → (0 < count k (cells_in b) → InBox b k) × (InBox b k → count k (cells_in b) ≡ 1)
unfolding cells_in all_loops
cells_in-InBox b k = (found, marked)
  where
    n : ℕ
    n = rounds b.lat_start b.lat_end

    m : ℕ
    m = rounds b.lng_start b.lng_end

    agrees : Agrees (all_loops b)
    agrees = all_loops-Agrees b

    found : 0 < count k (cells_in b) → InBox b k
    found h =
        elim (rows_loop_found n b.lat_start m b.lng_start nothing k (ground (arith, agrees k))) [
          | inl e ↦ absurd (cc e)
          | inr r ↦ r
        ]

    marked : InBox b k → count k (cells_in b) ≡ 1
    marked r = ground (arith, agrees k, rows_loop_marks n b.lat_start m b.lng_start nothing k r)

cells_in-IsDistinct : (b : Box) → IsDistinct (cells_in b)
unfolding cells_in all_loops
cells_in-IsDistinct b k = ground (arith, all_loops-Agrees b k)

cells_in-below : (b : Box) → All (λ k. k < 256) (cells_in b)
cells_in-below b =
    All-of_count (cells_in b) (λ k h. InBlock-lt _ _ _ _ k ((cells_in-InBox b k).0 h))

-- ShardsForRadius lists exactly the cells of its box of indices, modulo 16 both ways, each once;
-- every one is a shard, and there are 256 at most.
pub shards_for_radius-InBox :
    (p : Platform) (lat lng radius_m : ℕ)
    → ((k : ℕ)
        → (0 < count k (shards_for_radius p lat lng radius_m) → InBox (box_of p lat lng radius_m) k)
          × (InBox (box_of p lat lng radius_m) k
              → count k (shards_for_radius p lat lng radius_m) ≡ 1))
      × All (λ k. k < 256) (shards_for_radius p lat lng radius_m)
      × (length (shards_for_radius p lat lng radius_m) ≤ 256)
unfolding shards_for_radius
shards_for_radius-InBox p lat lng radius_m = (
  λ k. cells_in-InBox b k,
  cells_in-below b,
  length-le_of_distinct 256 (cells_in b) (cells_in-IsDistinct b) (cells_in-below b),
)
  where
    b : Box
    b = box_of p lat lng radius_m

pub shards_for_radius-below :
    (p : Platform) (lat lng radius_m : ℕ)
    → All (λ k. k < 256) (shards_for_radius p lat lng radius_m)
shards_for_radius-below p lat lng radius_m = (shards_for_radius-InBox p lat lng radius_m).1

pub shards_for_radius-IsDistinct :
    (p : Platform) (lat lng radius_m : ℕ) → IsDistinct (shards_for_radius p lat lng radius_m)
unfolding shards_for_radius
shards_for_radius-IsDistinct p lat lng radius_m = cells_in-IsDistinct (box_of p lat lng radius_m)

index_between :
    (from to : ℤ) (n : ℕ)
    → from ≤ℤ pos n
    → pos n ≤ℤ to
    → (i : ℕ) × (i < rounds from to) × (from +ℤ pos i ≡ pos n)
unfolding rounds
index_between from to n h k = (n + neg_part from - pos_part from, ground arith, omega int_laws)

-- A position whose row and column lie between the ends of the box has its cell listed.
pub shards_for_radius_covers :
    (p : Platform) (lat lng radius_m lat' lng' : ℕ)
    → let b = box_of p lat lng radius_m in
      b.lat_start ≤ℤ pos (row p lat')
      → b.lng_start ≤ℤ pos (column p lng')
      → pos (row p lat') ≤ℤ b.lat_end
      → pos (column p lng') ≤ℤ b.lng_end
      → count (shard_key p lat' lng') (shards_for_radius p lat lng radius_m) ≡ 1
shards_for_radius_covers p lat lng radius_m lat' lng' h1 h2 h3 h4 =
    let b : Box = box_of p lat lng radius_m in
    let (key, hr, hc, _) = shard_key-row-column p lat' lng' in
    let (i, hi, ei) = index_between b.lat_start b.lat_end (row p lat') h1 h3 in
    let (j, hj, ej) = index_between b.lng_start b.lng_end (column p lng') h2 h4 in
    let same : shard_key p lat' lng'
        ≡ cell_key (low4 (b.lat_start +ℤ pos i)) (low4 (b.lng_start +ℤ pos j)) =
      key
      ∙ sym (cell_key_lem (row p lat') (column p lng') hr hc)
      ∙ sym (ap₂ cell_key (ap low4 ei ∙ low4-pos _ hr) (ap low4 ej ∙ low4-pos _ hc)) in
    ((shards_for_radius-InBox p lat lng radius_m).0 (shard_key p lat' lng')).1
      (i, hi, (j, hj, same))
