-- ===== src/Engine/Workers/Fits.antt =====
-- What a worker relies on in each of its phases, against the positions at which the grid holds the entities. While a packet
-- is under way these differ from the last positions, for its own entity only.
use aerocast.Prelude.{
  ℕ, ◌≡◌, ◌≢◌, ◌∙◌, refl, sym, Bool, Option, none, some, ◌==◌, if◌then◌else◌, inl, inr, arith,
  Bool-cases, Option-cases,
}
use aerocast.Prelude.Array.{update, update_self, update_ne}
use aerocast.Binary.Codec.{CoordPacket}
use aerocast.Float.{Platform}
use aerocast.Spatial.Grid.{Grid, key_of, leave_old, remove}
use aerocast.Spatial.Grid.Tracking.{Tracks, remove-Tracks}
use aerocast.Engine.Pipeline.{IngressPacket}
use aerocast.Engine.Workers
use aerocast.Engine.Workers.{
  Phase, idle, received, refused, counted, fetched, moving, left, entered, evaluated, entity_of,
  advance, is_some, follow_pointer,
}

abbrev pub Positions : Type 0
Positions = ℕ → Option CoordPacket

-- prev, followed now, is the last position.
abbrev pub Follows : Positions → IngressPacket → Bool → Type 0
Follows last pkt found = (if found then last pkt.entity_id else none) ≡ last pkt.entity_id

-- What a worker in a phase relies on, with the positions in the grid and the last positions.
abbrev pub Fits : Platform → Positions → Positions → Phase → Type 0
Fits p seen last idle = Unit {0}
Fits p seen last (received pkt) = seen pkt.entity_id ≡ last pkt.entity_id
Fits p seen last refused = Unit {0}
Fits p seen last (counted pkt) = seen pkt.entity_id ≡ last pkt.entity_id
Fits p seen last (fetched pkt found) =
    (seen pkt.entity_id ≡ last pkt.entity_id) × Follows last pkt found
Fits p seen last (moving pkt found) =
    (seen pkt.entity_id ≡ last pkt.entity_id) × Follows last pkt found
Fits p seen last (left pkt found) =
    ((c : CoordPacket) → seen pkt.entity_id ≡ some c → key_of p c ≡ key_of p pkt.coord)
    × Follows last pkt found
Fits p seen last (entered pkt found) =
    (seen pkt.entity_id ≡ some pkt.coord) × Follows last pkt found
Fits p seen last (evaluated pkt) = seen pkt.entity_id ≡ some pkt.coord
Fits p seen last (Workers.stored pkt) = seen pkt.entity_id ≡ last pkt.entity_id

-- Only the positions of its own entity matter to it.
pub Fits-cong :
    (p : Platform) (seen seen' last last' : Positions) (ph : Phase)
    → ((id : ℕ) → entity_of ph ≡ some id → (seen' id ≡ seen id) × (last' id ≡ last id))
    → Fits p seen last ph
    → Fits p seen' last' ph
Fits-cong p seen seen' last last' idle same fits = tt
Fits-cong p seen seen' last last' (received pkt) same fits =
    let (s, l) = same pkt.entity_id refl in s ∙ fits ∙ sym l
Fits-cong p seen seen' last last' refused same fits = tt
Fits-cong p seen seen' last last' (counted pkt) same fits =
    let (s, l) = same pkt.entity_id refl in s ∙ fits ∙ sym l
Fits-cong p seen seen' last last' (fetched pkt found) same fits =
    let (s, l) = same pkt.entity_id refl in rw (s, l) fits
Fits-cong p seen seen' last last' (moving pkt found) same fits =
    let (s, l) = same pkt.entity_id refl in rw (s, l) fits
Fits-cong p seen seen' last last' (left pkt found) same fits =
    let (s, l) = same pkt.entity_id refl in rw (s, l) fits
Fits-cong p seen seen' last last' (entered pkt found) same fits =
    let (s, l) = same pkt.entity_id refl in rw (s, l) fits
Fits-cong p seen seen' last last' (evaluated pkt) same fits =
    let (s, l) = same pkt.entity_id refl in s ∙ fits
Fits-cong p seen seen' last last' (Workers.stored pkt) same fits =
    let (s, l) = same pkt.entity_id refl in s ∙ fits ∙ sym l

-- An entity that is given up stands at its last position.
pub given_up :
    (a b : Positions) (entity : ℕ)
    → a entity ≡ b entity
    → (id : ℕ) → some entity ≡ some id
    → a id ≡ b id
given_up a b entity h id same = ground (arith, h, same)

-- The first half of RouteWithPrevious: the entity is nowhere, or still in the cell to which it moves.
pub leave_old-Tracks :
    (p : Platform) (g : Grid) (seen : Positions) (pkt : IngressPacket)
    → Tracks p g seen
    → (seen' : Positions) × Tracks p
        (leave_old p g pkt.entity_id (key_of p pkt.coord) (seen pkt.entity_id))
        seen'
      × ((c : CoordPacket) → seen' pkt.entity_id ≡ some c → key_of p c ≡ key_of p pkt.coord)
      × ((j : ℕ) → pkt.entity_id ≢ j → seen' j ≡ seen j)
unfolding leave_old remove
leave_old-Tracks p g seen pkt t = elim (Option-cases (seen pkt.entity_id)) [
  | inl h ↦ (seen, rw h t, λ c k. ground (arith, h, k), λ j away. refl)
  | inr (c, h) ↦ elim (Bool-cases (key_of p c == key_of p pkt.coord)) [
    | inl same ↦ (seen, rw (h, same) t, λ d k. ground (arith, h, k, same), λ j away. refl)
    | inr apart ↦ (
      update seen pkt.entity_id none,
      rw (h, apart) (remove-Tracks p g seen pkt.entity_id c.lat c.lng c t h refl),
      λ d k. ground (arith, k, update_self seen pkt.entity_id none),
      λ j away. update_ne seen pkt.entity_id j none away,
    )
  ]
]
