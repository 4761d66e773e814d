-- ===== src/Engine/Cms.antt =====
-- pkg/engine/cms.go: the count-min sketch that limits an entity's packets in a tick.
pub mod Estimate
use aerocast.Prelude.{ℕ, zero, suc, ◌+◌, ◌*◌, ◌%◌, ◌^◌, List, [], ◌∷◌, ltb, if◌then◌else◌}
use aerocast.Prelude.Array.{update}
use aerocast.Engine.Hash32.{hash1, hash2}

abbrev pub cms_rows : ℕ
cms_rows = 4

abbrev pub cms_cols : ℕ
cms_cols = 1024

-- The table, by row and column.
abbrev pub CountMinSketch : Type 0
CountMinSketch = ℕ → ℕ → ℕ

pub column : ℕ → ℕ → ℕ
column i id = (hash1 id + i * hash2 id % 2 ^ 32) % 2 ^ 32 % cms_cols

-- c.table[i][col]++
bump : CountMinSketch → ℕ → ℕ → CountMinSketch
bump c i id = update c i (update (c i) (column i id) ((c i (column i id) + 1) % 2 ^ 32))

-- The rows left, the next row, and minVal.
rows_loop : ℕ → ℕ → CountMinSketch → ℕ → ℕ → CountMinSketch × ℕ
unfolding bump column
rows_loop zero i c id min_val = (c, min_val)
rows_loop (suc n) i c id min_val =
    let c' : CountMinSketch = bump c i id in
    let val : ℕ = c' i (column i id) in
    rows_loop n (i + 1) c' id (if ltb val min_val then val else min_val)

unfoldable pub add_and_estimate : CountMinSketch → ℕ → CountMinSketch × ℕ
unfolding rows_loop
add_and_estimate c id = rows_loop cms_rows 0 c id 0xffff_ffff

unfoldable pub reset : CountMinSketch → CountMinSketch
reset c i j = 0

-- The sketch after packets of these entities.
unfoldable pub add_all : CountMinSketch → List ℕ → CountMinSketch
add_all c [] = c
add_all c (id ∷ ids) = add_all (add_and_estimate c id).0 ids
