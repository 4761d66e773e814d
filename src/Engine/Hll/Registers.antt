-- ===== src/Engine/Hll/Registers.antt =====
-- The registers depend on the set of entities that were added, not on their order or repetition.
use aerocast.Prelude.{
  ℕ, zero, suc, ◌/◌, ◌≤◌, ◌<◌, ◌≡◌, ◌↔◌, ◌∙◌, refl, ap, fun_ext, List, [], ◌∷◌, ltb, ◌==◌,
  if◌then◌else◌, arith,
}
use aerocast.Prelude.Count.{count}
use aerocast.Engine.Hll.{
  HyperLogLog, register_of, value_of, leading_zeros32, digit_count, add, add_all, reset,
}

digit_count-le : (fuel n : ℕ) → digit_count fuel n ≤ fuel
unfolding digit_count
digit_count-le zero n = omega arith
digit_count-le (suc fuel) n = ground (arith, digit_count-le fuel (n / 2))

-- The largest value of these entities in register i, if any exceeds m.
top : ℕ → ℕ → List ℕ → ℕ
top i m [] = m
top i m (id ∷ ids) =
    top i (if register_of id == i then (if ltb m (value_of id) then value_of id else m) else m) ids

add_lem :
    (h : HyperLogLog) (id i : ℕ)
    → add h id i ≡ (
        if register_of id == i then (if ltb (h i) (value_of id) then value_of id else h i) else h i)
unfolding add
add_lem h id i = ground arith

add_all-top : (h : HyperLogLog) (ids : List ℕ) (i : ℕ) → add_all h ids i ≡ top i (h i) ids
unfolding add_all top
add_all-top h [] i = refl
add_all-top h (id ∷ ids) i = add_all-top (add h id) ids i ∙ ap (λ m. top i m ids) (add_lem h id i)

top-ge : (i m : ℕ) (ids : List ℕ) → m ≤ top i m ids
unfolding top
top-ge i m [] = omega arith
top-ge i m (id ∷ ids) = ground (
  arith,
  top-ge i (if register_of id == i then (if ltb m (value_of id) then value_of id else m) else m)
      ids,
)

top-ge-value :
    (i m : ℕ) (ids : List ℕ) (k : ℕ)
    → 0 < count k ids
    → register_of k ≡ i
    → value_of k ≤ top i m ids
unfolding top count
top-ge-value i m [] k h e = absurd (omega arith)
top-ge-value i m (id ∷ ids) k h e =
    let m' : ℕ =
      if register_of id == i then (if ltb m (value_of id) then value_of id else m) else m in
    ground (arith, top-ge i m' ids, top-ge-value i m' ids k)

top-least :
    (i m : ℕ) (ids : List ℕ) (bound : ℕ)
    → m ≤ bound
    → ((k : ℕ) → 0 < count k ids → register_of k ≡ i → value_of k ≤ bound)
    → top i m ids ≤ bound
unfolding top count
top-least i m [] bound h below = h
top-least i m (id ∷ ids) bound h below =
    top-least i
      (if register_of id == i then (if ltb m (value_of id) then value_of id else m) else m) ids
      bound (ground (arith, below id (ground arith))) (λ k some_k e. below k (omega arith) e)

top_mono :
    (i m : ℕ) (xs ys : List ℕ)
    → ((k : ℕ) → 0 < count k xs → 0 < count k ys)
    → top i m xs ≤ top i m ys
top_mono i m xs ys sub =
    top-least i m xs (top i m ys) (top-ge i m ys)
      (λ k in_xs e. top-ge-value i m ys k (sub k in_xs) e)

-- Two sequences of the same entities, in whatever order and however often each comes, leave the same
-- registers.
pub add_all_same_set :
    (h : HyperLogLog) (xs ys : List ℕ)
    → ((k : ℕ) → (0 < count k xs) ↔ (0 < count k ys))
    → add_all h xs ≡ add_all h ys
add_all_same_set h xs ys same = fun_ext λ i.
    let one = add_all-top h xs i in
    let other = add_all-top h ys i in
    omega (
      arith,
      one,
      other,
      top_mono i (h i) xs ys (λ k. (same k).0),
      top_mono i (h i) ys xs (λ k. (same k).1),
    )

pub register_of-lt : (id : ℕ) → register_of id < 64
unfolding register_of
register_of-lt id = omega arith

value_of_bounds : (id : ℕ) → (1 ≤ value_of id) × (value_of id ≤ 33)
unfolding value_of leading_zeros32
value_of_bounds id = omega arith

-- From a reset on, every entity falls in one of the 64 registers, and no register passes 33: the shift
-- by it in Estimate stays within 64 bits. The register of an entity that was added holds at least its
-- value, which is not 0.
pub add_all-reset_bounds :
    (h : HyperLogLog) (ids : List ℕ) (id : ℕ)
    → (register_of id < 64)
      × ((i : ℕ) → add_all (reset h) ids i ≤ 33)
      × (0 < count id ids → 1 ≤ add_all (reset h) ids (register_of id))
add_all-reset_bounds h ids id = (
  register_of-lt id,
  λ i. omega (
    arith,
    add_all-top (reset h) ids i,
    top-least i (reset h i) ids 33 (empty i) (λ k in_ids e. (value_of_bounds k).1),
  ),
  λ in_ids. omega (
    arith,
    add_all-top (reset h) ids (register_of id),
    value_of_bounds id,
    top-ge-value (register_of id) (reset h (register_of id)) ids id in_ids refl,
  ),
)
  where
    empty : (i : ℕ) → reset h i ≤ 33
    empty i = unfold reset in omega arith
