-- ===== src/Daemon/Pumped.antt =====
-- What the counters of cmd/aerocastd/main.go are given.
use aerocast.Prelude.{
  ℕ, ◌+◌, ◌-◌, ◌≤◌, ◌≡◌, refl, sym, ap, List, [], ◌∷◌, ◌++◌, ◌==◌, if◌then◌else◌, arith, ltb, inl,
  inr, Bool-cases, append-nil,
}
use aerocast.Float
use aerocast.Engine.Stats.{EngineStats}
use aerocast.Daemon.{
  Counter, packets_routed, packets_dropped, geofence_events, connections_total, broadcast_bytes,
  Round, add_rise, pump_round, pump_loop, pump, zero_stats,
}

abbrev number : Counter → ℕ
number packets_routed = 0
number packets_dropped = 1
number geofence_events = 2
number connections_total = 3
number broadcast_bytes = 4

-- The statistic behind a counter.
abbrev pub reading : Counter → EngineStats → ℕ
reading packets_routed s = s.packets_routed
reading packets_dropped s = s.packets_dropped
reading geofence_events s = s.events_fired
reading connections_total s = s.connections_total
reading broadcast_bytes s = s.broadcast_bytes

-- The values that are added to a counter, in order.
unfoldable pub given : Counter → List (Counter × ℕ) → List ℕ
given c [] = []
given c ((d, x) ∷ adds) = let rest = given c adds in if number c == number d then x ∷ rest else rest

abbrev pub given_in_all : Counter → List Round → List ℕ
given_in_all c [] = []
given_in_all c (r ∷ rounds) = given c r.adds ++ given_in_all c rounds

abbrev pub sum : List ℕ → ℕ
sum [] = 0
sum (n ∷ ns) = n + sum ns

abbrev pub floats : List ℕ → List ℕ
floats [] = []
floats (n ∷ ns) = Float.of_ℕ n ∷ floats ns

abbrev pub last_of : EngineStats → List EngineStats → EngineStats
last_of last [] = last
last_of last (s ∷ readings) = last_of s readings

-- The statistic behind a counter never falls.
abbrev pub Rises : Counter → EngineStats → List EngineStats → Type 0
Rises c last [] = Unit {0}
Rises c last (s ∷ readings) = (reading c last ≤ reading c s) × Rises c s readings

given-append :
    (c : Counter) (xs ys : List (Counter × ℕ)) → given c (xs ++ ys) ≡ given c xs ++ given c ys
unfolding given
given-append c [] ys = refl
given-append c ((d, x) ∷ xs) ys = elim (Bool-cases (number c == number d)) [
  | inl same ↦ rw (same, given-append c xs ys) refl
  | inr other ↦ rw (other, given-append c xs ys) refl
]

-- A rise, if there is one.
abbrev rises : ℕ → ℕ → List ℕ
rises now last = if ltb last now then (now - last) ∷ [] else []

given-add_rise :
    (c d : Counter) (now last : ℕ)
    → given c (add_rise d now last) ≡ (if number c == number d then floats (rises now last) else [])
unfolding given add_rise
given-add_rise c d now last = ground arith

given-pump_round :
    (c : Counter) (last s : EngineStats)
    → given c (pump_round last s).adds ≡ floats (rises (reading c s) (reading c last))
unfolding pump_round
given-pump_round packets_routed last s = simp (given-append, given-add_rise, append-nil) refl
given-pump_round packets_dropped last s = simp (given-append, given-add_rise, append-nil) refl
given-pump_round geofence_events last s = simp (given-append, given-add_rise, append-nil) refl
given-pump_round connections_total last s = simp (given-append, given-add_rise, append-nil) refl
given-pump_round broadcast_bytes last s = simp (given-append, given-add_rise) refl

floats-append : (xs ys : List ℕ) → floats (xs ++ ys) ≡ floats xs ++ floats ys
floats-append [] ys = refl
floats-append (x ∷ xs) ys = ap (λ t. Float.of_ℕ x ∷ t) (floats-append xs ys)

sum-append : (xs ys : List ℕ) → sum (xs ++ ys) ≡ sum xs + sum ys
sum-append [] ys = omega arith
sum-append (x ∷ xs) ys = omega (arith, sum-append xs ys)

sum-rises : (now last : ℕ) → sum (rises now last) ≡ now - last
sum-rises now last = ground arith

-- The rises of the statistic behind a counter, from reading to reading.
abbrev pub all_rises : Counter → EngineStats → List EngineStats → List ℕ
all_rises c last [] = []
all_rises c last (s ∷ readings) = rises (reading c s) (reading c last) ++ all_rises c s readings

pump_loop-given :
    (c : Counter) (last : EngineStats) (readings : List EngineStats)
    → given_in_all c (pump_loop last readings) ≡ floats (all_rises c last readings)
unfolding pump_loop
pump_loop-given c last [] = refl
pump_loop-given c last (s ∷ readings) =
    rw (given-pump_round c last s, pump_loop-given c s readings)
      (sym (floats-append (rises (reading c s) (reading c last)) (all_rises c s readings)))

all_rises_lem :
    (c : Counter) (last : EngineStats) (readings : List EngineStats)
    → (reading c (last_of last readings) ≤ reading c last + sum (all_rises c last readings))
      × (Rises c last readings
          → reading c last + sum (all_rises c last readings) ≡ reading c (last_of last readings))
all_rises_lem c last [] = (omega arith, λ rising. omega arith)
all_rises_lem c last (s ∷ readings) =
    let whole = sum-append (rises (reading c s) (reading c last)) (all_rises c s readings) in
    let here = sum-rises (reading c s) (reading c last) in
    (
      omega (arith, whole, here, (all_rises_lem c s readings).0),
      λ rising. omega (arith, whole, here, (all_rises_lem c s readings).1 rising.1, rising.0),
    )

zero_reading : (c : Counter) → reading c zero_stats ≡ 0
unfolding zero_stats
zero_reading packets_routed = refl
zero_reading packets_dropped = refl
zero_reading geofence_events = refl
zero_reading connections_total = refl
zero_reading broadcast_bytes = refl

-- The values that the loop adds to a counter are the conversions to float64 of whole numbers, each rounded by
-- itself, whose sum is never less than the statistic behind the counter as it was last read. The sum is
-- exactly that if the statistic never fell from one reading to the next: no rise is lost and none counts
-- twice.
pub pump-last_of :
    (c : Counter) (readings : List EngineStats)
    → (ns : List ℕ) × (given_in_all c (pump readings) ≡ floats ns)
      × (reading c (last_of zero_stats readings) ≤ sum ns)
      × (Rises c zero_stats readings → sum ns ≡ reading c (last_of zero_stats readings))
unfolding pump
pump-last_of c readings = (
  all_rises c zero_stats readings,
  pump_loop-given c zero_stats readings,
  omega (arith, (all_rises_lem c zero_stats readings).0, zero_reading c),
  λ rising. omega (arith, (all_rises_lem c zero_stats readings).1 rising, zero_reading c),
)
