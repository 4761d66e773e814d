-- ===== src/Engine/Bloom/Membership.antt =====
-- The filter forgets nothing between resets.
use aerocast.Prelude.{
  ℕ, ◌/◌, ◌%◌, ◌<◌, ◌≡◌, refl, Bool, true, false, ◌&&◌, List, [], ◌∷◌, ◌==◌, arith, Bool-cases,
  ==_iff, subst, inl, inr,
}
use aerocast.Prelude.Count.{count}
use aerocast.Engine.Hash32.{hash1, hash2}
use aerocast.Engine.Bloom.{TickBloomFilter, check_and_add, add_all, reset}

check_and_add_keeps :
    (f : TickBloomFilter) (id i j k : ℕ) → f i j k ≡ true → (check_and_add f id).0 i j k ≡ true
unfolding check_and_add
check_and_add_keeps f id i j k h = ground arith

place : ℕ → (ℕ → ℕ) → TickBloomFilter → Bool
place id hash f = f (hash1 id % 64) (hash id % 2048 / 64) (hash id % 2048 % 64)

present_lem :
    (f : TickBloomFilter) (id : ℕ) → (check_and_add f id).1 ≡ (place id hash1 f && place id hash2 f)
unfolding check_and_add place
present_lem f id = refl

place_keeps :
    (f : TickBloomFilter) (x id : ℕ) (hash : ℕ → ℕ)
    → place id hash f ≡ true
    → place id hash (check_and_add f x).0 ≡ true
unfolding place
place_keeps f x id hash h = check_and_add_keeps f x _ _ _ h

present_keeps :
    (f : TickBloomFilter) (x id : ℕ)
    → (check_and_add f id).1 ≡ true
    → (check_and_add (check_and_add f x).0 id).1 ≡ true
present_keeps f x id h = ground (
  arith,
  present_lem f id,
  present_lem (check_and_add f x).0 id,
  place_keeps f x id hash1,
  place_keeps f x id hash2,
)

add_all_keeps :
    (f : TickBloomFilter) (ids : List ℕ) (id : ℕ)
    → (check_and_add f id).1 ≡ true
    → (check_and_add (add_all f ids) id).1 ≡ true
unfolding add_all
add_all_keeps f [] id h = h
add_all_keeps f (x ∷ ids) id h = add_all_keeps (check_and_add f x).0 ids id (present_keeps f x id h)

check_and_add_twice :
    (f : TickBloomFilter) (id : ℕ) → (check_and_add (check_and_add f id).0 id).1 ≡ true
unfolding check_and_add
check_and_add_twice f id = ground arith

add_all_present :
    (f : TickBloomFilter) (ids : List ℕ) (id : ℕ)
    → 0 < count id ids
    → (check_and_add (add_all f ids) id).1 ≡ true
unfolding add_all count
add_all_present f [] id h = absurd (omega arith)
add_all_present f (x ∷ ids) id h = elim (Bool-cases (x == id)) [
  | inl e ↦ add_all_keeps (check_and_add f x).0 ids id (
      subst (λ y. (check_and_add (check_and_add f x).0 y).1 ≡ true) ((==_iff x id).0 e)
        (check_and_add_twice f x))
  | inr e ↦ add_all_present (check_and_add f x).0 ids id (ground (arith, e))
]

-- Within a tick the filter has no false negatives, and it begins empty: after any ids an id among them
-- is reported as present, and right after a reset none is.
pub check_and_add_complete :
    (f : TickBloomFilter) (ids : List ℕ) (id : ℕ)
    → 0 < count id ids
    → ((check_and_add (add_all f ids) id).1 ≡ true) × ((check_and_add (reset f) id).1 ≡ false)
check_and_add_complete f ids id h = (add_all_present f ids id h, unfold check_and_add reset in refl)
