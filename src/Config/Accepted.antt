-- ===== src/Config/Accepted.antt =====
-- Which configurations Load accepts.
use Prim.Native.Nat.{bit_and}
use Prim.Native.String.{String}
use text.Mathlib.Text.{◌==◌ as str_eq}
use native.Mathlib.Nat.{pow-suc, pow-le-pow_right}
use aerocast.Prelude.{
  ℕ, zero, suc, ◌+◌, ◌-◌, ◌%◌, ◌^◌, ◌≤◌, ◌<◌, ◌≡◌, ◌≢◌, ◌⊎◌, ◌↔◌, ◌∙◌, refl, sym, ap, true, false,
  List, Option, none, some, if◌then◌else◌, arith, Option-cases, inl, inr, subst,
}
use aerocast.Prelude.Int.{ℤ, pos, negsuc, ltb_ℤ}
use aerocast.Prelude.Powers.{power_of_2, exponent-le, power_shares_none}
use aerocast.Config.{
  FileConfig, apply_defaults, int_or, validate, word, word_before, Reader, ok, err, check_loaded,
  with_tick_rate, load, parse_tick_rate,
}

abbrev pub IsInt64 : ℤ → Type 0
IsInt64 (pos n) = n < 2 ^ 63
IsInt64 (negsuc n) = n < 2 ^ 63

-- A power of 2 that is at most 65536, or the least int.
abbrev pub IsShards : ℤ → Type 0
IsShards z = ((k : ℕ) × (k ≤ 16) × (z ≡ pos (2 ^ k))) ⊎ (z ≡ negsuc (2 ^ 63 - 1))

abbrev IsPositive : ℤ → Type 0
IsPositive z = ltb_ℤ (pos 0) z ≡ true

-- What the checks of validate let through.
pub record IsAccepted (c : FileConfig) : Type 0 where
  pub shards : IsShards c.spatial.grid_shards
  pub conns : IsPositive c.server.max_conns
  pub workers : IsPositive c.engine.pipeline_workers

IsShards-pos :
    (n : ℕ)
    → 0 < n
    → n ≤ 65_536
    → bit_and (word (pos n)) (word_before (pos n)) ≡ 0
    → IsShards (pos n)
unfolding word word_before
IsShards-pos n pos_n small shared =
    let same : n % 2 ^ 64 ≡ n = omega arith in
    let before : (n % 2 ^ 64 + (2 ^ 64 - 1)) % 2 ^ 64 ≡ n - 1 = omega arith in
    let (k, power) =
      power_of_2 n pos_n (
        sym (ap (λ w. bit_and w (n - 1)) same) ∙ ap (bit_and (n % 2 ^ 64)) (sym before) ∙ shared) in
    inl (k, exponent-le k 16 (omega (arith, power)), ap pos power)

IsShards-negsuc :
    (n : ℕ)
    → n < 2 ^ 63
    → bit_and (word (negsuc n)) (word_before (negsuc n)) ≡ 0
    → IsShards (negsuc n)
unfolding word word_before
IsShards-negsuc n bounded shared =
    let bits : ℕ = 2 ^ 64 - 1 - n in
    let same : 2 ^ 64 - 1 - n % 2 ^ 64 ≡ bits = omega arith in
    let before : (2 ^ 64 - 1 - n % 2 ^ 64 + (2 ^ 64 - 1)) % 2 ^ 64 ≡ bits - 1 = omega arith in
    let (k, power) = power_of_2 bits (omega arith) (
      sym (ap (λ w. bit_and w (bits - 1)) same)
      ∙ ap (bit_and (2 ^ 64 - 1 - n % 2 ^ 64)) (sym before)
      ∙ shared) in
    let low : 63 ≤ k = exponent-le 63 k (omega (arith, power, pow-suc 2 k)) in
    let high : k ≤ 63 = exponent-le k 63 (omega (arith, power)) in
    let top : k ≡ 63 = omega arith in
    let value : bits ≡ 2 ^ 63 = power ∙ ap (λ (j : ℕ). 2 ^ j) top in
    inr (ap negsuc (omega (arith, value)))

-- Conversely the tests of the shards pass.
shards_pass :
    (z : ℤ) → IsShards z → (bit_and (word z) (word_before z) ≡ 0) × (ltb_ℤ (pos 65_536) z ≡ false)
unfolding word word_before
shards_pass z (inl (k, small, e)) =
    let bound : 2 ^ k ≤ 2 ^ 16 = pow-le-pow_right {n = 2} (omega arith) small in
    let least : 0 ≤ k = omega arith in
    let pos_power : 2 ^ 0 ≤ 2 ^ k = pow-le-pow_right {n = 2} (omega arith) least in
    let same : 2 ^ k % 2 ^ 64 ≡ 2 ^ k = omega arith in
    let before : (2 ^ k % 2 ^ 64 + (2 ^ 64 - 1)) % 2 ^ 64 ≡ 2 ^ k - 1 = omega arith in
    (rw e (rw (before, same) (power_shares_none k)), rw e (ground arith))
shards_pass z (inr e) = (rw e, rw e)

test-IsShards :
    (z : ℤ)
    → IsInt64 z
    → z ≢ pos 0
    → bit_and (word z) (word_before z) ≡ 0
    → ltb_ℤ (pos 65_536) z ≡ false
    → IsShards z
test-IsShards (pos n) bounded not_zero shared small =
    IsShards-pos n (ground (arith, λ (e : n ≡ 0). not_zero (ap pos e))) (ground arith) shared
test-IsShards (negsuc n) bounded not_zero shared small = IsShards-negsuc n bounded shared

-- validate lets a configuration through exactly if it is `IsAccepted`, for shards of 64 bits that are not 0.
validate_iff :
    (c : FileConfig)
    → IsInt64 c.spatial.grid_shards
    → c.spatial.grid_shards ≢ pos 0
    → (validate c ≡ none) ↔ IsAccepted c
unfolding validate
validate_iff c bounded not_zero = (
  λ passed. record {
    shards = test-IsShards c.spatial.grid_shards bounded not_zero (ground arith) (ground arith);
    conns = ground arith;
    workers = ground arith;
  },
  λ good. ground (arith, shards_pass c.spatial.grid_shards good.shards, good.conns, good.workers),
)

-- The file's configuration with the tick rate that its text gives.
abbrev pub timed : Reader → FileConfig → Option FileConfig
timed r c =
    if str_eq c.engine.tick_rate_str ""
    then some c
    else elim (r.parse_duration c.engine.tick_rate_str) [
      | none ↦ none
      | some dur ↦ some (record c { engine = record c.engine { tick_rate = dur } })
    ]

not_zero_after : (z d : ℤ) → d ≢ pos 0 → int_or z d ≢ pos 0
unfolding int_or
not_zero_after (pos zero) d h = h
not_zero_after (pos (suc n)) d h = λ e. ground arith
not_zero_after (negsuc n) d h = λ e. cc e

int_or-IsInt64 : (z d : ℤ) → IsInt64 d → IsInt64 z → IsInt64 (int_or z d)
unfolding int_or
int_or-IsInt64 (pos zero) d hd hz = hd
int_or-IsInt64 (pos (suc n)) d hd hz = hz
int_or-IsInt64 (negsuc n) d hd hz = hz

timed_shards :
    (r : Reader) (raw t : FileConfig)
    → timed r raw ≡ some t
    → t.spatial.grid_shards ≡ raw.spatial.grid_shards
timed_shards r raw t h = ground arith

with_tick_rate_lem :
    (r : Reader) (c : FileConfig)
    → with_tick_rate r c ≡ elim (timed r c) [ none ↦ err parse_tick_rate | some t ↦ check_loaded t ]
unfolding with_tick_rate
with_tick_rate_lem r c = ground arith

default_shards :
    (c : FileConfig)
    → (apply_defaults c).spatial.grid_shards ≡ int_or c.spatial.grid_shards (pos 256)
unfolding apply_defaults
default_shards c = refl

defaults_iff :
    (c : FileConfig)
    → IsInt64 c.spatial.grid_shards
    → (validate (apply_defaults c) ≡ none) ↔ IsAccepted (apply_defaults c)
defaults_iff c bounded =
    validate_iff (apply_defaults c)
      (subst IsInt64 (sym (default_shards c))
        (int_or-IsInt64 c.spatial.grid_shards (pos 256) (omega arith) bounded))
      (λ e.
        not_zero_after c.spatial.grid_shards (pos 256) (λ k. ground arith)
          (sym (default_shards c) ∙ e))

check_loaded_iff :
    (t c : FileConfig)
    → IsInt64 t.spatial.grid_shards
    → (check_loaded t ≡ ok c) ↔ ((c ≡ apply_defaults t) × IsAccepted c)
unfolding check_loaded
check_loaded_iff t c bounded = elim (Option-cases (validate (apply_defaults t))) [
  | inl passed ↦ (
    λ h.
        let e : c ≡ apply_defaults t = ground (arith, passed, h) in
        (e, subst IsAccepted (sym e) ((defaults_iff t bounded).0 passed)),
    λ (e, good). rw (passed, check_loaded) (ap ok (sym e)),
  )
  | inr (error, refused) ↦ (
    λ h. ground (arith, refused, h),
    λ (e, good). ground (arith, refused, (defaults_iff t bounded).1 (subst IsAccepted e good)),
  )
]

load_lem :
    (r : Reader) (path : String) (bytes : List ℕ) (raw : FileConfig)
    → r.read_file path ≡ some bytes
    → r.unmarshal bytes ≡ some raw
    → load r path ≡ elim (timed r raw) [ none ↦ err parse_tick_rate | some t ↦ check_loaded t ]
unfolding load
load_lem r path bytes raw was_read parsed =
    rw (was_read, load) (rw parsed (with_tick_rate_lem r raw))

-- Load of a file that can be read and parsed, whose grid shards are an int of 64 bits. It accepts the file exactly
-- if the tick rate parses and the configuration, with its defaults filled in, has positive connections and
-- workers and as its shards a power of 2 of 65536 at most, or the least int, which also passes the test of the
-- bits. It then returns that configuration.
pub load_iff :
    (r : Reader) (path : String) (bytes : List ℕ) (raw c : FileConfig)
    → r.read_file path ≡ some bytes
    → r.unmarshal bytes ≡ some raw
    → IsInt64 raw.spatial.grid_shards
    → (load r path ≡ ok c)
      ↔ ((t : FileConfig) × (timed r raw ≡ some t) × (c ≡ apply_defaults t) × IsAccepted c)
load_iff r path bytes raw c was_read parsed bounded = elim (Option-cases (timed r raw)) [
  | inl unparsed ↦ (
    λ h. ground (arith, load_lem r path bytes raw was_read parsed, unparsed, h),
    λ (t, tick, e, good). cc (unparsed, tick),
  )
  | inr (t, tick) ↦
      let loaded : load r path ≡ check_loaded t =
        load_lem r path bytes raw was_read parsed ∙ ground (arith, tick) in
      let same = check_loaded_iff t c (subst IsInt64 (sym (timed_shards r raw t tick)) bounded) in
      (
        λ h. let (e, good) = same.0 (sym loaded ∙ h) in (t, tick, e, good),
        λ (t', tick', e, good).
            let one : t' ≡ t = ground (arith, tick, tick') in
            loaded ∙ same.1 (e ∙ ap apply_defaults one, good),
      )
]
