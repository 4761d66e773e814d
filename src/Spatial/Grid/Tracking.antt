-- ===== src/Spatial/Grid/Tracking.antt =====
-- The grid holds each entity once, in the shard of its last position.
use aerocast.Prelude.{
  ℕ, zero, suc, ◌+◌, ◌%◌, ◌≡◌, refl, inl, inr, true, false, Bool-cases, ◌&&◌, Option, none, some,
  ◌==◌, if◌then◌else◌, arith, Option-cases, leb, ltb,
}
use aerocast.Prelude.Assoc.{
  lookup, Distinct, lookup-insert, lookup-delete, insert-Distinct, delete-Distinct,
}
use aerocast.Prelude.Array.{update}
use aerocast.Binary.Codec.{CoordPacket}
use aerocast.Float.{Platform}
use aerocast.Spatial.Hash.{shard_key}
use aerocast.Spatial.Hash.Cells.{shard_key-lt}
use aerocast.Spatial.Grid.{
  Grid, EntityState, key_of, new_grid, route, route_with_previous, leave_old, remove, get, get_loop,
  put_entry, drop_entry, has_moved,
}

-- What the map of one shard and stripe holds for an entity at this position.
abbrev pub place : Platform → Option CoordPacket → ℕ → ℕ → ℕ → Option EntityState
place p none id shard stripe = none
place p (some c) id shard stripe =
    if key_of p c == shard
    then (if id % 16 == stripe then some (record { coord = c }) else none)
    else none

-- The grid agrees with a record of last positions: every entity is in the map of its own cell and
-- stripe, with that position, and in no other map.
pub record Tracks (p : Platform) (g : Grid) (last : ℕ → Option CoordPacket) : Type 0 where
  pub distinct : (shard stripe : ℕ) → Distinct (g shard stripe)
  pub placed :
      (shard stripe id : ℕ) → lookup id (g shard stripe) ≡ place p (last id) id shard stripe

pub new_grid-Tracks : (p : Platform) → Tracks p new_grid (λ id. none)
unfolding new_grid lookup
new_grid-Tracks p = record { distinct = λ i s. tt; placed = λ i s id. refl }

put_entry-Distinct :
    (g : Grid) (key id : ℕ) (state : EntityState)
    → ((i s : ℕ) → Distinct (g i s))
    → (i s : ℕ) → Distinct (put_entry g key id state i s)
put_entry-Distinct g key id state d i s =
    ground (arith, insert-Distinct id state (g key (id % 16)) (d key (id % 16)), d i s)

drop_entry-Distinct :
    (g : Grid) (key id : ℕ)
    → ((i s : ℕ) → Distinct (g i s))
    → (i s : ℕ) → Distinct (drop_entry g key id i s)
drop_entry-Distinct g key id d i s =
    ground (arith, delete-Distinct id (g key (id % 16)) (d key (id % 16)), d i s)

pub lookup-put_entry :
    (g : Grid) (key id : ℕ) (state : EntityState) (i s j : ℕ)
    → lookup j (put_entry g key id state i s) ≡ (
        if id == j
        then (if key == i
            then (if id % 16 == s then some state else lookup j (g i s))
            else lookup j (g i s))
        else lookup j (g i s))
lookup-put_entry g key id state i s j = ground (arith, lookup-insert id j state (g key (id % 16)))

lookup-drop_entry :
    (g : Grid) (key id i s j : ℕ)
    → ((i s : ℕ) → Distinct (g i s))
    → lookup j (drop_entry g key id i s) ≡ (
        if id == j
        then (if key == i
            then (if id % 16 == s then none else lookup j (g i s))
            else lookup j (g i s))
        else lookup j (g i s))
lookup-drop_entry g key id i s j d =
    ground (arith, lookup-delete id j (g key (id % 16)) (d key (id % 16)))

module _ (p : Platform) (g : Grid) (last : ℕ → Option CoordPacket) (t : Tracks p g last) where
  -- Dropping the entry of the old cell, or routing over it in the same cell.
  leave_old-Distinct :
      (id k : ℕ) (prev : Option CoordPacket) (i s : ℕ) → Distinct (leave_old p g id k prev i s)
  unfolding leave_old
  leave_old-Distinct id k none i s = t.distinct i s
  leave_old-Distinct id k (some c) i s =
      ground (arith, t.distinct i s, drop_entry-Distinct g (key_of p c) id t.distinct i s)

  -- After it the entity is nowhere but in the shard k.
  leave_old-placed :
      (id k : ℕ) (prev : Option CoordPacket)
      → last id ≡ prev
      → (i s j : ℕ)
      → lookup j (leave_old p g id k prev i s)
        ≡ (if id == j then (if k == i then lookup j (g i s) else none) else place p (last j) j i s)
  unfolding leave_old
  leave_old-placed id k none h i s j = ground (arith, t.placed i s j)
  leave_old-placed id k (some c) h i s j =
      ground (arith, t.placed i s j, lookup-drop_entry g (key_of p c) id i s j t.distinct)

-- RouteWithPrevious, given the entity's last position, moves the entity there and nothing else: the
-- grid then agrees with the record of positions in which this one has the new value.
pub route_with_previous-Tracks :
    (p : Platform) (g : Grid) (last : ℕ → Option CoordPacket) (id : ℕ) (coord : CoordPacket)
    → Tracks p g last
    → Tracks p (route_with_previous p g id coord (last id)).0 (update last id (some coord))
unfolding route_with_previous
route_with_previous-Tracks p g last id coord t = record {
  distinct =
      put_entry-Distinct (leave_old p g id k (last id)) k id (record { coord = coord })
        (λ i s. leave_old-Distinct p g last t id k (last id) i s);
  placed = λ i s j. ground (
    arith,
    t.placed i s j,
    lookup-put_entry (leave_old p g id k (last id)) k id (record { coord = coord }) i s j,
    leave_old-placed p g last t id k (last id) refl i s j,
  );
}
  where
    k : ℕ
    k = key_of p coord

-- Route takes no old entry out. It keeps the grid in step only for an entity that is new, or whose
-- last position is in the same cell.
pub route-Tracks :
    (p : Platform) (g : Grid) (last : ℕ → Option CoordPacket) (id : ℕ) (coord : CoordPacket)
    → Tracks p g last
    → ((c : CoordPacket) → last id ≡ some c → key_of p c ≡ key_of p coord)
    → Tracks p (route p g id coord) (update last id (some coord))
unfolding route
route-Tracks p g last id coord t same = record {
  distinct = put_entry-Distinct g k id (record { coord = coord }) t.distinct;
  placed = λ i s j. elim (Option-cases (last id)) [
    | inl e ↦
        ground (arith, t.placed i s j, lookup-put_entry g k id (record { coord = coord }) i s j)
    | inr (c, e) ↦
        ground (
          arith,
          same c e,
          t.placed i s j,
          lookup-put_entry g k id (record { coord = coord }) i s j,
        )
  ];
}
  where
    k : ℕ
    k = key_of p coord

-- Remove at the entity's last position, or at any position in the same cell, forgets the entity.
pub remove-Tracks :
    (p : Platform) (g : Grid) (last : ℕ → Option CoordPacket) (id lat lng : ℕ) (c : CoordPacket)
    → Tracks p g last
    → last id ≡ some c
    → shard_key p lat lng ≡ key_of p c
    → Tracks p (remove p g id lat lng) (update last id none)
unfolding remove
remove-Tracks p g last id lat lng c t e same = record {
  distinct = drop_entry-Distinct g (shard_key p lat lng) id t.distinct;
  placed = λ i s j.
      ground (arith, t.placed i s j, lookup-drop_entry g (shard_key p lat lng) id i s j t.distinct);
}

-- Where every map says what `last` says, the loop finds the entity in its cell if that is still ahead.
get_loop_lem :
    (p : Platform) (g : Grid) (last : ℕ → Option CoordPacket) (n i id : ℕ)
    → Tracks p g last
    → get_loop n i g id ≡ elim (last id) [
      | none ↦ none
      | some c ↦
          if leb i (key_of p c) && ltb (key_of p c) (i + n)
          then some (record { coord = c })
          else none
    ]
unfolding get_loop
get_loop_lem p g last zero i id t = ground arith
get_loop_lem p g last (suc n) i id t =
    ground (arith, t.placed i (id % 16) id, get_loop_lem p g last n (i + 1) id t)

-- Get returns the last position of every entity that the grid tracks, and nothing for any other.
pub get-Tracks :
    (p : Platform) (g : Grid) (last : ℕ → Option CoordPacket) (id : ℕ)
    → Tracks p g last
    → get g id ≡ elim (last id) [ none ↦ none | some c ↦ some (record { coord = c }) ]
unfolding get
get-Tracks p g last id t = elim (Option-cases (last id)) [
  | inl e ↦ ground (arith, get_loop_lem p g last 256 0 id t)
  | inr (c, e) ↦ ground (arith, get_loop_lem p g last 256 0 id t, shard_key-lt p c.lat c.lng)
]

-- RouteWithPrevious, given the entity's last position, moves the entity there and nothing else: the
-- grid then agrees with the record of positions in which this one has the new value. The result is false
-- exactly if the grid held the entity in the cell of the new position before, so it is true for an entity
-- that is new or has changed its cell.
pub route_with_previous_moves :
    (p : Platform) (g : Grid) (last : ℕ → Option CoordPacket) (id : ℕ) (coord : CoordPacket)
    → Tracks p g last
    → Tracks p (route_with_previous p g id coord (last id)).0 (update last id (some coord))
      × ((route_with_previous p g id coord (last id)).1
          ≡ elim (lookup id (g (key_of p coord) (id % 16))) [ none ↦ true | some state ↦ false ])
unfolding route_with_previous has_moved
route_with_previous_moves p g last id coord t =
    (route_with_previous-Tracks p g last id coord t, moved (last id) refl)
  where
    moved :
        (prev : Option CoordPacket)
        → last id ≡ prev
        → (route_with_previous p g id coord prev).1
          ≡ elim (lookup id (g (key_of p coord) (id % 16))) [ none ↦ true | some state ↦ false ]
    moved none h = rw (t.placed (key_of p coord) (id % 16) id) (rw h refl)
    moved (some c) h = elim (Bool-cases (key_of p c == key_of p coord)) [
      | inl same ↦ ground (arith, t.placed (key_of p coord) (id % 16) id, h, same)
      | inr other ↦ ground (arith, t.placed (key_of p coord) (id % 16) id, h, other)
    ]
