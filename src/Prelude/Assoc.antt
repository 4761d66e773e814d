-- ===== src/Prelude/Assoc.antt =====
-- A Go map with numbers for keys, as an association list: a write replaces the entry in place or
-- adds one at the end, and `delete` takes the entry out. The order of the list is one order in
-- which `range` may visit the entries.
use Prim.Native.Nat.{ℕ, ◌+◌}
use mathlib.Core.Path.{◌≡◌, refl}
use mathlib.Core.Logic.{◌≢◌}
use mathlib.Core.Option.{Option, none, some}
use mathlib.Core.List.{List, [], ◌∷◌}
use native.Mathlib.Omega.{arith}
use aerocast.Prelude.Tests.{◌==◌, if◌then◌else◌}
use aerocast.Prelude.Lists.{length}

module _ {ℓ} {V : Type ℓ} where
  unfoldable pub lookup : ℕ → List (ℕ × V) → Option V
  lookup key [] = none
  lookup key ((at, value) ∷ rest) = if at == key then some value else lookup key rest

  unfoldable pub insert : ℕ → V → List (ℕ × V) → List (ℕ × V)
  insert key value [] = (key, value) ∷ []
  insert key value ((at, old) ∷ rest) =
      if at == key then (key, value) ∷ rest else (at, old) ∷ insert key value rest

  unfoldable pub delete : ℕ → List (ℕ × V) → List (ℕ × V)
  delete k [] = []
  delete k ((j, w) ∷ m) = if j == k then m else (j, w) ∷ delete k m

  -- No key has two entries: what Go's map gives for nothing.
  abbrev pub Absent : ℕ → List (ℕ × V) → Type 0
  Absent k [] = Unit {0}
  Absent k ((j, w) ∷ m) = (j ≢ k) × Absent k m

  abbrev pub Distinct : List (ℕ × V) → Type 0
  Distinct [] = Unit {0}
  Distinct ((j, w) ∷ m) = Absent j m × Distinct m

  pub lookup-insert :
      (key other : ℕ) (value : V) (entries : List (ℕ × V))
      → lookup other (insert key value entries)
        ≡ (if key == other then some value else lookup other entries)
  unfolding lookup insert
  lookup-insert key other value [] = refl
  lookup-insert key other value ((at, old) ∷ rest) =
      ground (arith, lookup-insert key other value rest)

  pub lookup-Absent : (k : ℕ) (m : List (ℕ × V)) → Absent k m → lookup k m ≡ none
  unfolding lookup
  lookup-Absent k [] h = refl
  lookup-Absent k ((j, w) ∷ m) h = ground (arith, lookup-Absent k m h.1)

  pub lookup-delete :
      (k j : ℕ) (m : List (ℕ × V))
      → Distinct m
      → lookup j (delete k m) ≡ (if k == j then none else lookup j m)
  unfolding lookup delete
  lookup-delete k j [] h = ground arith
  lookup-delete k j ((i, w) ∷ m) h = ground (arith, lookup-delete k j m h.1, lookup-Absent i m h.0)

  insert-Absent :
      (i k : ℕ) (v : V) (m : List (ℕ × V)) → i ≢ k → Absent i m → Absent i (insert k v m)
  unfolding insert
  insert-Absent i k v [] n h = (λ e. n (ground arith), tt)
  insert-Absent i k v ((j, w) ∷ m) n h = ground (arith, insert-Absent i k v m n h.1)

  pub insert-Distinct : (k : ℕ) (v : V) (m : List (ℕ × V)) → Distinct m → Distinct (insert k v m)
  unfolding insert
  insert-Distinct k v [] h = (tt, tt)
  insert-Distinct k v ((j, w) ∷ m) h =
      ground (arith, insert-Distinct k v m h.1, insert-Absent j k v m)

  delete-Absent : (i k : ℕ) (m : List (ℕ × V)) → Absent i m → Absent i (delete k m)
  unfolding delete
  delete-Absent i k [] h = tt
  delete-Absent i k ((j, w) ∷ m) h = ground (arith, delete-Absent i k m h.1)

  pub delete-Distinct : (k : ℕ) (m : List (ℕ × V)) → Distinct m → Distinct (delete k m)
  unfolding delete
  delete-Distinct k [] h = tt
  delete-Distinct k ((j, w) ∷ m) h =
      ground (arith, delete-Distinct k m h.1, delete-Absent j k m h.0)

  -- The number of entries moves by one or stays.
  abbrev pub has : ℕ → List (ℕ × V) → ℕ
  has k m = elim (lookup k m) [ none ↦ 0 | some v ↦ 1 ]

  pub length-insert :
      (k : ℕ) (v : V) (m : List (ℕ × V)) → length (insert k v m) + has k m ≡ length m + 1
  unfolding lookup insert
  length-insert k v [] = refl
  length-insert k v ((j, w) ∷ m) = ground (arith, length-insert k v m)

  pub length-delete : (k : ℕ) (m : List (ℕ × V)) → length (delete k m) + has k m ≡ length m
  unfolding lookup delete
  length-delete k [] = refl
  length-delete k ((j, w) ∷ m) = ground (arith, length-delete k m)
