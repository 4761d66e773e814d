-- ===== src/Spatial/Grid/Query.antt =====
-- What the queries and EgressRecords return of a grid that agrees with the last positions.
use mathlib.Core.List.{map-append}
use aerocast.Prelude.{
  ℕ, zero, suc, ◌+◌, ◌*◌, ◌%◌, ◌≡◌, ◌∙◌, refl, ap, inl, inr, Bool, true, ◌&&◌, List, [], ◌∷◌, ◌++◌,
  map, length, length-append, All, All-append, Option, none, some, ◌==◌, if◌then◌else◌, arith,
  Option-cases, leb, ltb,
}
use aerocast.Prelude.Assoc.{lookup, Distinct, lookup-Absent}
use aerocast.Prelude.Count.{count, count-append}
use aerocast.Binary.Codec.{CoordPacket}
use aerocast.Binary.Egress.{EgressRecord}
use aerocast.Float
use aerocast.Float.{Platform}
use aerocast.Spatial.Hash.{shards_for_radius, haversine_m}
use aerocast.Spatial.Hash.Cover.{shards_for_radius-IsDistinct}
use aerocast.Spatial.Grid.{
  Grid, Entries, EntityState, key_of, near, near_entries, query_loop, query_circle, stripes_loop,
  shard_entries, shard_stats, stripe_sum, egress_records,
}
use aerocast.Spatial.Grid.Tracking.{Tracks}

abbrev ids : Entries → List ℕ
ids = map (λ e. e.0)

-- 1 for an entry that passes the test, else 0.
abbrev passes : (EntityState → Bool) → Option EntityState → ℕ
passes test none = 0
passes test (some st) = if test st then 1 else 0

-- The entries that pass.
abbrev keep : (EntityState → Bool) → Entries → Entries
keep test [] = []
keep test ((id, st) ∷ es) = if test st then (id, st) ∷ keep test es else keep test es

count-keep :
    (test : EntityState → Bool) (es : Entries) (id : ℕ)
    → Distinct es
    → count id (ids (keep test es)) ≡ passes test (lookup id es)
unfolding count lookup
count-keep test [] id d = refl
count-keep test ((j, st) ∷ es) id d =
    ground (arith, count-keep test es id d.1, lookup-Absent j es d.0)

keep-append :
    (test : EntityState → Bool) (xs ys : Entries)
    → keep test (xs ++ ys) ≡ keep test xs ++ keep test ys
keep-append test [] ys = refl
keep-append test ((j, st) ∷ xs) ys = ground (arith, keep-append test xs ys)

count-keep-append :
    (test : EntityState → Bool) (xs ys : Entries) (id : ℕ)
    → count id (ids (keep test (xs ++ ys)))
      ≡ count id (ids (keep test xs)) + count id (ids (keep test ys))
count-keep-append test xs ys id =
    ap (λ t. count id (ids t)) (keep-append test xs ys)
    ∙ ap (count id) (map-append (λ e. e.0) (keep test xs) (keep test ys))
    ∙ count-append id (ids (keep test xs)) (ids (keep test ys))

module _ (p : Platform) (g : Grid) (last : ℕ → Option CoordPacket) (t : Tracks p g last) where
  -- Of the stripes ahead only the entity's own has it.
  count-stripes :
      (test : EntityState → Bool) (n s i id : ℕ)
      → count id (ids (keep test (stripes_loop n s (g i)))) ≡ (
          if leb s (id % 16) && ltb (id % 16) (s + n)
          then passes test (lookup id (g i (id % 16)))
          else 0)
  unfolding stripes_loop count
  count-stripes test zero s i id = ground arith
  count-stripes test (suc n) s i id = ground (
    arith,
    count-keep-append test (g i s) (stripes_loop n (s + 1) (g i)) id,
    count-keep test (g i s) id (t.distinct i s),
    count-stripes test n (s + 1) i id,
    t.placed i s id,
  )

  count-shard :
      (test : EntityState → Bool) (i id : ℕ)
      → count id (ids (keep test (shard_entries (g i)))) ≡ elim (last id) [
        | none ↦ 0
        | some c ↦ if key_of p c == i then passes test (some (record { coord = c })) else 0
      ]
  unfolding shard_entries
  count-shard test i id = ground (arith, count-stripes test 16 0 i id, t.placed i (id % 16) id)

module _ (p : Platform) (lat lng radius_m : ℕ) where
  near_entries-keep :
      (es : Entries) → near_entries p lat lng radius_m es ≡ keep (near p lat lng radius_m) es
  unfolding near_entries
  near_entries-keep [] = refl
  near_entries-keep ((j, st) ∷ es) = ground (arith, near_entries-keep es)

  module _ (g : Grid) (last : ℕ → Option CoordPacket) (t : Tracks p g last) where
    count-query_loop :
        (keys : List ℕ) (id : ℕ)
        → count id (ids (query_loop p lat lng radius_m g keys)) ≡ elim (last id) [
          | none ↦ 0
          | some c ↦
              count (key_of p c) keys
              * passes (near p lat lng radius_m) (some (record { coord = c }))
        ]
    unfolding query_loop count
    count-query_loop [] id = ground arith
    count-query_loop (k ∷ keys) id =
        let near_here = keep (near p lat lng radius_m) (shard_entries (g k)) in
        let rest = query_loop p lat lng radius_m g keys in
        rw (near_entries-keep (shard_entries (g k))) (
          ground (
            arith,
            ap (count id) (map-append (λ e. e.0) near_here rest),
            count-append id (ids near_here) (ids rest),
            count-shard p g last t (near p lat lng radius_m) k id,
            count-query_loop keys id,
          ))

-- QueryCircle lists an entity once if the cell of its last position is among the cells near the
-- circle and the haversine distance of that position is at most the radius, and not at all
-- otherwise; an entity that the grid does not track is not listed.
pub query_circle-Tracks :
    (p : Platform) (g : Grid) (last : ℕ → Option CoordPacket) (lat lng radius_m id : ℕ)
    → Tracks p g last
    → count id (query_circle p g lat lng radius_m) ≡ elim (last id) [
      | none ↦ 0
      | some c ↦
          if ltb 0 (count (key_of p c) (shards_for_radius p lat lng radius_m))
            && Float.le (haversine_m p lat lng c.lat c.lng) radius_m
          then 1
          else 0
    ]
unfolding query_circle near
query_circle-Tracks p g last lat lng radius_m id t =
    let keys = shards_for_radius p lat lng radius_m in
    let listed = count-query_loop p lat lng radius_m g last t keys id in
    elim (Option-cases (last id)) [
      | inl e ↦ ground (arith, listed)
      | inr (c, e) ↦
          ground (arith, listed, shards_for_radius-IsDistinct p lat lng radius_m (key_of p c))
    ]

-- The records of a shard, with the early return on an empty one.
abbrev to_record : ℕ × EntityState → EgressRecord
to_record e = record { entity_id = e.0; lat = e.1.coord.lat; lng = e.1.coord.lng }

stripe_sum-length :
    (n s : ℕ) (shard : ℕ → Entries) → stripe_sum n s shard ≡ length (stripes_loop n s shard)
unfolding stripe_sum stripes_loop
stripe_sum-length zero s shard = refl
stripe_sum-length (suc n) s shard = omega (
  arith,
  length-append (shard s) (stripes_loop n (s + 1) shard),
  stripe_sum-length n (s + 1) shard,
)

map_of_empty : (es : Entries) → length es ≡ 0 → map to_record es ≡ []
map_of_empty [] h = refl
map_of_empty (e ∷ es) h = absurd (omega arith)

egress_records_lem : (g : Grid) (i : ℕ) → egress_records g i ≡ map to_record (shard_entries (g i))
unfolding egress_records shard_stats shard_entries
egress_records_lem g i =
    ground (arith, stripe_sum-length 16 0 (g i), map_of_empty (stripes_loop 16 0 (g i)))

ids-records :
    (es : Entries) → map (λ r. r.entity_id) (map to_record es) ≡ ids (keep (λ st. true) es)
ids-records [] = refl
ids-records (e ∷ es) = ap (λ t. e.0 ∷ t) (ids-records es)

-- The position that a record carries.
abbrev pub position : EgressRecord → CoordPacket
position r = record { lng = r.lng; lat = r.lat }

abbrev pub Reports : (ℕ → Option CoordPacket) → EgressRecord → Type 0
Reports last r = last r.entity_id ≡ some (position r)

module _ (p : Platform) (g : Grid) (last : ℕ → Option CoordPacket) (t : Tracks p g last) where
  -- An entry is what `lookup` finds.
  entries-Reports :
      (i s : ℕ) (es : Entries)
      → Distinct es
      → ((id : ℕ) (st : EntityState) → lookup id es ≡ some st → lookup id (g i s) ≡ some st)
      → All (Reports last) (map to_record es)
  unfolding lookup
  entries-Reports i s [] d sub = tt
  entries-Reports i s ((j, st) ∷ es) d sub = (
    ground (arith, sub j st (ground arith), t.placed i s j),
    entries-Reports i s es d.1 (λ id st' e. sub id st' (ground (arith, lookup-Absent j es d.0))),
  )

  stripes-Reports : (n s i : ℕ) → All (Reports last) (map to_record (stripes_loop n s (g i)))
  unfolding stripes_loop
  stripes-Reports zero s i = tt
  stripes-Reports (suc n) s i = rw (map-append to_record (g i s) (stripes_loop n (s + 1) (g i))) (
      All-append (Reports last) (map to_record (g i s))
        (map to_record (stripes_loop n (s + 1) (g i)))
        (entries-Reports i s (g i s) (t.distinct i s) (λ id st e. e)) (stripes-Reports n (s + 1) i))

-- EgressRecords of a shard has exactly the entities whose last position is in that cell, each in one
-- record, and every record carries its entity's last position.
pub egress_records-Tracks :
    (p : Platform) (g : Grid) (last : ℕ → Option CoordPacket) (i : ℕ)
    → Tracks p g last
    → ((id : ℕ)
        → count id (map (λ r. r.entity_id) (egress_records g i))
          ≡ elim (last id) [ none ↦ 0 | some c ↦ if key_of p c == i then 1 else 0 ])
      × All (Reports last) (egress_records g i)
egress_records-Tracks p g last i t = rw (egress_records_lem g i) (
  λ id.
      ap (count id) (ids-records (shard_entries (g i)))
      ∙ ground (arith, count-shard p g last t (λ st. true) i id),
  unfold shard_entries in stripes-Reports p g last t 16 0 i,
)
