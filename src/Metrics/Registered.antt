-- ===== src/Metrics/Registered.antt =====
-- New registers all its collectors.
use Prim.Native.String.{String}
use text.Mathlib.Text.{◌==◌ as str_eq}
use aerocast.Prelude.{
  ℕ, ◌≡◌, ◌∙◌, refl, ap, All, ◌++◌, Bool, true, false, not, ◌&&◌, List, [], ◌∷◌, some, arith,
  if◌then◌else◌,
}
use aerocast.Float
use aerocast.Metrics.{
  Registry, Collector, Kind, gauge, counter, histogram, collectors, register_all, new_metrics,
}

abbrev pub is_among : String → List String → Bool
is_among s [] = false
is_among s (t ∷ names) = if str_eq s t then true else is_among s names

-- Each bucket above the one before.
abbrev pub rise : ℕ → List ℕ → Bool
rise last [] = true
rise last (b ∷ buckets) = Float.lt last b && rise b buckets

abbrev pub has_rising_buckets : Kind → Bool
has_rising_buckets gauge = true
has_rising_buckets counter = true
has_rising_buckets (histogram []) = true
has_rising_buckets (histogram (b ∷ buckets)) = rise b buckets

-- None of the collectors has a name of these or of one before, and the buckets rise.
abbrev pub all_new : List String → List Collector → Bool
all_new names [] = true
all_new names (c ∷ cs) =
    not (is_among c.name names) && (has_rising_buckets c.kind && all_new (c.name ∷ names) cs)

abbrev pub with_names : List String → List Collector → List String
with_names names [] = names
with_names names (c ∷ cs) = with_names (c.name ∷ names) cs

-- What MustRegister promises: a collector with a new name, whose buckets rise, is registered, and its name is then
-- taken.
pub record IsRegistry {R : Type 0} (reg : Registry R) (names : R → List String) : Type 0 where
  pub registers :
      (r : R) (c : Collector)
      → is_among c.name (names r) ≡ false
      → has_rising_buckets c.kind ≡ true
      → (r' : R) × (reg.register r c ≡ some r') × (names r' ≡ c.name ∷ names r)

is_among-append :
    (s : String) (xs ys : List String)
    → is_among s (xs ++ ys) ≡ (if is_among s xs then true else is_among s ys)
is_among-append s [] ys = refl
is_among-append s (t ∷ xs) ys = ground (arith, is_among-append s xs ys)

-- Names that are new among themselves are new behind others that none of them is among.
all_new-append :
    (xs ys : List String) (cs : List Collector)
    → all_new xs cs ≡ true
    → All (λ c. is_among c.name ys ≡ false) cs
    → all_new (xs ++ ys) cs ≡ true
all_new-append xs ys [] h apart = refl
all_new-append xs ys (c ∷ cs) h apart = ground (
  arith,
  h,
  is_among-append c.name xs ys,
  apart.0,
  all_new-append (c.name ∷ xs) ys cs (ground (arith, h)) apart.1,
)

collectors_new : all_new [] collectors ≡ true
unfolding Float.lt
collectors_new = refl

module _ {R : Type 0} (reg : Registry R) (names : R → List String)
    (law : IsRegistry reg names) where
  register_all_lem :
      (r : R) (cs : List Collector)
      → all_new (names r) cs ≡ true
      → (r' : R) × (register_all reg r cs ≡ some r') × (names r' ≡ with_names (names r) cs)
  unfolding register_all
  register_all_lem r [] h = (r, refl, refl)
  register_all_lem r (c ∷ cs) h =
      let (r1, run, taken) = law.registers r c (ground (arith, h)) (ground (arith, h)) in
      let (r2, rest, all) = register_all_lem r1 cs (rw taken (ground (arith, h))) in
      (r2, rw run rest, all ∙ ap (λ ns. with_names ns cs) taken)

-- New never panics, and all eleven collectors are registered then: with a registry that keeps its promise, whose
-- collectors for Go and the process register and take none of their names.
pub new_metrics-IsRegistry :
    {R : Type 0} (reg : Registry R) (names : R → List String) (r r' : R)
    → IsRegistry reg names
    → reg.register_go reg.new_registry ≡ some r
    → reg.register_process r ≡ some r'
    → All (λ c. is_among c.name (names r') ≡ false) collectors
    → (full : R) × (new_metrics reg ≡ some full) × (names full ≡ with_names (names r') collectors)
unfolding new_metrics
new_metrics-IsRegistry reg names r r' law first second apart =
    let (full, run, all) =
      register_all_lem reg names law r' collectors
        (all_new-append [] (names r') collectors collectors_new apart) in
    (full, rw first (rw second run), all)
