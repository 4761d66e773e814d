-- ===== src/Prelude/Count.antt =====
-- How often a number stands in a list, and lists without repetition.
use Prim.Native.Nat.{ℕ, zero, suc, ◌+◌, ◌≤◌, ◌<◌}
use mathlib.Core.Path.{◌≡◌, refl}
use mathlib.Core.List.{List, [], ◌∷◌, ◌++◌}
use native.Mathlib.Omega.{arith}
use aerocast.Prelude.Tests.{◌==◌, if◌then◌else◌}
use aerocast.Prelude.Lists.{length, All}

unfoldable pub count : ℕ → List ℕ → ℕ
count k [] = 0
count k (x ∷ xs) = (if x == k then 1 else 0) + count k xs

pub count-append : (k : ℕ) (xs ys : List ℕ) → count k (xs ++ ys) ≡ count k xs + count k ys
unfolding count
count-append k [] ys = omega arith
count-append k (x ∷ xs) ys = omega (arith, count-append k xs ys)

pub count_one : (k x : ℕ) → count k (x ∷ []) ≡ (if x == k then 1 else 0)
unfolding count
count_one k x = omega arith

abbrev pub IsDistinct : List ℕ → Type 0
IsDistinct xs = (k : ℕ) → count k xs ≤ 1

-- The list without its entries at k.
without : ℕ → List ℕ → List ℕ
without k [] = []
without k (x ∷ xs) = if x == k then without k xs else x ∷ without k xs

length-without : (k : ℕ) (xs : List ℕ) → length (without k xs) + count k xs ≡ length xs
unfolding without count
length-without k [] = refl
length-without k (x ∷ xs) = ground (arith, length-without k xs)

count-without-le : (j k : ℕ) (xs : List ℕ) → count j (without k xs) ≤ count j xs
unfolding without count
count-without-le j k [] = omega arith
count-without-le j k (x ∷ xs) = ground (arith, count-without-le j k xs)

without-below : (k : ℕ) (xs : List ℕ) → All (λ x. x < suc k) xs → All (λ x. x < k) (without k xs)
unfolding without
without-below k [] h = tt
without-below k (x ∷ xs) h = ground (arith, without-below k xs h.1)

-- Distinct numbers below n are n at most.
pub length-le_of_distinct :
    (n : ℕ) (xs : List ℕ) → IsDistinct xs → All (λ x. x < n) xs → length xs ≤ n
length-le_of_distinct zero [] d h = omega arith
length-le_of_distinct zero (x ∷ xs) d h = absurd (omega arith)
length-le_of_distinct (suc n) xs d h =
    let rest =
      length-le_of_distinct n (without n xs) (λ k. omega (arith, count-without-le k n xs, d k))
        (without-below n xs h) in
    omega (arith, rest, length-without n xs, d n)
