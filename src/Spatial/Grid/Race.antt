-- ===== src/Spatial/Grid/Race.antt =====
-- Two workers that move one entity at a time.
use aerocast.Prelude.{
  ℕ, ◌%◌, ◌≡◌, ◌≢◌, ◌∙◌, refl, sym, Option, none, some, arith, inl, inr, Option-cases,
}
use aerocast.Prelude.Assoc.{lookup}
use aerocast.Binary.Codec.{CoordPacket}
use aerocast.Float.{Platform}
use aerocast.Spatial.Grid.{Grid, key_of, route_with_previous, leave_old}
use aerocast.Spatial.Grid.Tracking.{Tracks, lookup-put_entry}

-- A route that puts the entity into another cell leaves the maps of a cell as they are, unless it is the old one.
other_cell :
    (p : Platform) (g : Grid) (id : ℕ) (coord : CoordPacket) (prev : Option CoordPacket) (i s : ℕ)
    → key_of p coord ≢ i
    → ((c : CoordPacket) → prev ≡ some c → key_of p c ≢ i)
    → lookup id ((route_with_previous p g id coord prev).0 i s) ≡ lookup id (g i s)
unfolding route_with_previous leave_old
other_cell p g id coord none i s new old = ground (arith, new)
other_cell p g id coord (some c) i s new old = ground (arith, new, old c refl)

own_cell :
    (p : Platform) (g : Grid) (id : ℕ) (coord : CoordPacket) (prev : Option CoordPacket)
    → lookup id ((route_with_previous p g id coord prev).0 (key_of p coord) (id % 16))
      ≡ some (record { coord = coord })
unfolding route_with_previous
own_cell p g id coord prev =
    lookup-put_entry (leave_old p g id (key_of p coord) prev) (key_of p coord) id
      (record { coord = coord }) (key_of p coord) (id % 16) id
    ∙ ground arith

-- A grid with the entity in two cells agrees with no record of positions.
twice-Tracks :
    (p : Platform) (g : Grid) (last : ℕ → Option CoordPacket) (id : ℕ) (a b : CoordPacket)
    → key_of p a ≢ key_of p b
    → lookup id (g (key_of p a) (id % 16)) ≡ some (record { coord = a })
    → lookup id (g (key_of p b) (id % 16)) ≡ some (record { coord = b })
    → ¬ Tracks p g last
twice-Tracks p g last id a b apart first second t = elim (Option-cases (last id)) [
  | inl nowhere ↦ ground (arith, t.placed (key_of p a) (id % 16) id, nowhere, first)
  | inr (c, h) ↦ ground (
    arith,
    t.placed (key_of p a) (id % 16) id,
    t.placed (key_of p b) (id % 16) id,
    h,
    first,
    second,
    apart,
  )
]

-- Two workers that have both read the last position of an entity before either of them stores a new one: when one
-- routes it to a cell that is not the old one and the other to a third cell, the grid holds the entity in
-- both new cells, and agrees with no record of last positions, whichever position is stored in the end.
pub route_with_previous_races :
    (p : Platform) (g : Grid) (last : ℕ → Option CoordPacket) (id : ℕ) (a b : CoordPacket)
    → Tracks p g last
    → key_of p a ≢ key_of p b
    → ((c : CoordPacket) → last id ≡ some c → key_of p c ≢ key_of p a)
    → let g1 = (route_with_previous p g id a (last id)).0 in
      let g2 = (route_with_previous p g1 id b (last id)).0 in
      (lookup id (g2 (key_of p a) (id % 16)) ≡ some (record { coord = a }))
      × (lookup id (g2 (key_of p b) (id % 16)) ≡ some (record { coord = b }))
      × ((now : ℕ → Option CoordPacket) → ¬ Tracks p g2 now)
route_with_previous_races p g last id a b t apart away =
    let g1 : Grid = (route_with_previous p g id a (last id)).0 in
    let g2 : Grid = (route_with_previous p g1 id b (last id)).0 in
    let first : lookup id (g2 (key_of p a) (id % 16)) ≡ some (record { coord = a }) =
      other_cell p g1 id b (last id) (key_of p a) (id % 16) (λ e. apart (sym e)) away
      ∙ own_cell p g id a (last id) in
    let second : lookup id (g2 (key_of p b) (id % 16)) ≡ some (record { coord = b }) =
      own_cell p g1 id b (last id) in
    (first, second, λ now. twice-Tracks p g2 now id a b apart first second)
