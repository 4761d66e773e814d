-- ===== src/Engine/Cms/Estimate.antt =====
-- The estimate lies between the entity's own packets and all packets of the tick.
use aerocast.Prelude.{
  ℕ, zero, suc, ◌+◌, ◌^◌, ◌≤◌, ◌<◌, ◌≡◌, refl, List, [], ◌∷◌, length, ltb, leb, ◌==◌, if◌then◌else◌,
  arith,
}
use aerocast.Prelude.Count.{count}
use aerocast.Engine.Cms.{CountMinSketch, column, bump, rows_loop, add_and_estimate, add_all, reset}

-- How many of these entities fall in column j of row i.
hits : ℕ → ℕ → List ℕ → ℕ
hits i j [] = 0
hits i j (id ∷ ids) = (if column i id == j then 1 else 0) + hits i j ids

hits-le-length : (i j : ℕ) (ids : List ℕ) → hits i j ids ≤ length ids
unfolding hits
hits-le-length i j [] = omega arith
hits-le-length i j (id ∷ ids) = ground (arith, hits-le-length i j ids)

count-le-hits : (i id : ℕ) (ids : List ℕ) → count id ids ≤ hits i (column i id) ids
unfolding hits count
count-le-hits i id [] = omega arith
count-le-hits i id (x ∷ ids) = ground (arith, count-le-hits i id ids)

-- The rows below 4 count the packets.
abbrev Counts : CountMinSketch → List ℕ → Type 0
Counts c ids = (i j : ℕ) → i < 4 → c i j ≡ hits i j ids

bump_lem :
    (c : CountMinSketch) (i id k j : ℕ)
    → c i (column i id) + 1 < 2 ^ 32
    → bump c i id k j ≡ (if i == k then (if column i id == j then 1 else 0) + c k j else c k j)
unfolding bump
bump_lem c i id k j h = ground arith

-- No counter of this entity from row i on is at its limit.
abbrev Small : ℕ → CountMinSketch → ℕ → Type 0
Small i c id = (k : ℕ) → i ≤ k → k < 4 → c k (column k id) + 1 < 2 ^ 32

bump-Small :
    (i : ℕ) (c : CountMinSketch) (id : ℕ) → i < 4 → Small i c id → Small (i + 1) (bump c i id) id
bump-Small i c id hi small k h lt =
    ground
      (arith, bump_lem c i id k (column k id) (small i (omega arith) hi), small k (omega arith) lt)

-- The minimum so far, after row i.
abbrev lower : CountMinSketch → ℕ → ℕ → ℕ → ℕ
lower c i id m = if ltb (bump c i id i (column i id)) m then bump c i id i (column i id) else m

-- Each row from i on is bumped once.
rows_loop_table :
    (n i : ℕ) (c : CountMinSketch) (id m : ℕ)
    → i + n ≡ 4
    → Small i c id
    → (k j : ℕ) → k < 4
    → (rows_loop n i c id m).0 k j
      ≡ (if leb i k then (if column k id == j then 1 else 0) + c k j else c k j)
unfolding rows_loop
rows_loop_table zero i c id m e small k j lt = ground arith
rows_loop_table (suc n) i c id m e small k j lt = ground (
  arith,
  bump_lem c i id k j (small i (omega arith) (omega arith)),
  rows_loop_table n (i + 1) (bump c i id) id (lower c i id m) (omega arith)
      (bump-Small i c id (omega arith) small) k j lt,
)

-- The minimum is no more than what it was, and than the first counter met.
rows_loop_upper : (n i : ℕ) (c : CountMinSketch) (id m : ℕ) → (rows_loop n i c id m).1 ≤ m
unfolding rows_loop
rows_loop_upper zero i c id m = omega arith
rows_loop_upper (suc n) i c id m =
    ground (arith, rows_loop_upper n (i + 1) (bump c i id) id (lower c i id m))

rows_loop_first :
    (n : ℕ) (c : CountMinSketch) (id m : ℕ)
    → Small 0 c id
    → (rows_loop (suc n) 0 c id m).1 ≤ c 0 (column 0 id) + 1
unfolding rows_loop
rows_loop_first n c id m small = ground (
  arith,
  bump_lem c 0 id 0 (column 0 id) (small 0 (omega arith) (omega arith)),
  rows_loop_upper n 1 (bump c 0 id) id (lower c 0 id m),
)

-- A bound below every counter met is below the minimum.
rows_loop_lower :
    (n i : ℕ) (c : CountMinSketch) (id m bound : ℕ)
    → i + n ≡ 4
    → Small i c id
    → bound ≤ m
    → ((k : ℕ) → i ≤ k → k < 4 → bound ≤ c k (column k id) + 1)
    → bound ≤ (rows_loop n i c id m).1
unfolding rows_loop
rows_loop_lower zero i c id m bound e small h below = h
rows_loop_lower (suc n) i c id m bound e small h below =
    rows_loop_lower n (i + 1) (bump c i id) id (lower c i id m) bound (omega arith)
      (bump-Small i c id (omega arith) small)
      (ground (arith, first, below i (omega arith) (omega arith)))
      (λ k hk lt. ground (
        arith,
        bump_lem c i id k (column k id) (small i (omega arith) (omega arith)),
        below k (omega arith) lt,
      ))
  where
    first : bump c i id i (column i id) ≡ c i (column i id) + 1
    first = ground (arith, bump_lem c i id i (column i id) (small i (omega arith) (omega arith)))

Counts-Small :
    (c : CountMinSketch) (ids : List ℕ) (id : ℕ)
    → Counts c ids
    → length ids + 1 < 2 ^ 32
    → Small 0 c id
Counts-Small c ids id h lt k hk k4 =
    omega (arith, h k (column k id) k4, hits-le-length k (column k id) ids)

add-Counts :
    (c : CountMinSketch) (ids : List ℕ) (id : ℕ)
    → Counts c ids
    → length ids + 1 < 2 ^ 32
    → Counts (add_and_estimate c id).0 (id ∷ ids)
unfolding add_and_estimate hits
add-Counts c ids id h lt i j i4 =
    ground (
      arith,
      rows_loop_table 4 0 c id 0xffff_ffff refl (Counts-Small c ids id h lt) i j i4,
      h i j i4,
    )

-- With a table that counts the packets of `ids`, the next estimate of an entity is at least its own
-- packets, this one included, and at most all packets.
estimate_bounds :
    (c : CountMinSketch) (ids : List ℕ) (id : ℕ)
    → Counts c ids
    → length ids + 1 < 2 ^ 32
    → (count id ids + 1 ≤ (add_and_estimate c id).1) × ((add_and_estimate c id).1 ≤ length ids + 1)
unfolding add_and_estimate
estimate_bounds c ids id h lt = (
  rows_loop_lower 4 0 c id 0xffff_ffff (count id ids + 1) refl small
      (omega (arith, count-le-hits 0 id ids, hits-le-length 0 (column 0 id) ids))
      (λ k hk k4. omega (arith, h k (column k id) k4, count-le-hits k id ids)),
  omega (
    arith,
    rows_loop_first 3 c id 0xffff_ffff small,
    h 0 (column 0 id) (omega arith),
    hits-le-length 0 (column 0 id) ids,
  ),
)
  where
    small : Small 0 c id
    small = Counts-Small c ids id h lt

-- The packets so far, newest first.
rev_onto : List ℕ → List ℕ → List ℕ
rev_onto [] seen = seen
rev_onto (id ∷ ids) seen = rev_onto ids (id ∷ seen)

length-rev_onto : (ids seen : List ℕ) → length (rev_onto ids seen) ≡ length ids + length seen
unfolding rev_onto
length-rev_onto [] seen = omega arith
length-rev_onto (id ∷ ids) seen = omega (arith, length-rev_onto ids (id ∷ seen))

count-rev_onto :
    (k : ℕ) (ids seen : List ℕ) → count k (rev_onto ids seen) ≡ count k ids + count k seen
unfolding rev_onto count
count-rev_onto k [] seen = omega arith
count-rev_onto k (id ∷ ids) seen = omega (arith, count-rev_onto k ids (id ∷ seen))

add_all-Counts :
    (ids : List ℕ) (c : CountMinSketch) (seen : List ℕ)
    → Counts c seen
    → length ids + length seen < 2 ^ 32
    → Counts (add_all c ids) (rev_onto ids seen)
unfolding add_all rev_onto
add_all-Counts [] c seen h lt = h
add_all-Counts (id ∷ ids) c seen h lt =
    add_all-Counts ids (add_and_estimate c id).0 (id ∷ seen) (add-Counts c seen id h (omega arith))
      (omega arith)

-- After a reset and any packets of the tick, fewer than 2 ^ 32 - 1, the sketch's estimate for the next
-- packet is at least the number of packets of that packet's entity, this one included, and at most
-- the number of all packets: it never underestimates.
pub estimate-reset_bounds :
    (c : CountMinSketch) (ids : List ℕ) (id : ℕ)
    → length ids + 1 < 2 ^ 32
    → (count id ids + 1 ≤ (add_and_estimate (add_all (reset c) ids) id).1)
      × ((add_and_estimate (add_all (reset c) ids) id).1 ≤ length ids + 1)
estimate-reset_bounds c ids id lt =
    let (low, high) =
      estimate_bounds (add_all (reset c) ids) (rev_onto ids []) id
        (add_all-Counts ids (reset c) [] (λ i j h. unfold reset hits in refl) (omega arith))
        (omega (arith, length-rev_onto ids [])) in
    (
      omega (arith, low, count-rev_onto id ids [], none_yet),
      omega (arith, high, length-rev_onto ids []),
    )
  where
    none_yet : count id [] ≡ 0
    none_yet = unfold count in refl
