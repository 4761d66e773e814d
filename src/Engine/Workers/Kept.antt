-- ===== src/Engine/Workers/Kept.antt =====
-- The invariant of workers that run side by side, and the steps of one worker that keep it.
use aerocast.Prelude.{
  ℕ, ◌≡◌, ◌≢◌, ◌∙◌, sym, ap, List, some, ◌==◌, inl, inr, arith, Bool-cases, Option-cases, ==_iff,
}
use aerocast.Prelude.Array.{update, update_self}
use aerocast.Float.{Platform}
use aerocast.Spatial.Grid.Tracking.{Tracks}
use aerocast.Geofence.Fence.{Fence}
use aerocast.Geofence.Store.{new_store, register_all}
use aerocast.Engine.Pipeline.{Engine, IngressPacket, last_position}
use aerocast.Engine.Workers.{Phase, System, idle, received, entity_of}
use aerocast.Engine.Workers.Fits.{Positions, Fits, Fits-cong}
use aerocast.Engine.Workers.Local.{Advanced}

-- What the workers rely on: the grid holds the entities at some positions, each worker's phase fits
-- them, they are the last positions of all entities that no worker holds, and no two workers hold one.
pub record IsConsistent {E : Type 0} (p : Platform) (fs : List Fence) (seen : Positions)
    (s : System E) : Type 0 where
  pub tracks : Tracks p s.engine.grid seen
  pub stored : s.engine.fences ≡ register_all p new_store fs
  pub fits : (i : ℕ) → Fits p seen (last_position s.engine) (s.phase i)
  pub free :
      (id : ℕ) → ((i : ℕ) → entity_of (s.phase i) ≢ some id) → seen id ≡ last_position s.engine id
  pub apart :
      (i j id : ℕ) → entity_of (s.phase i) ≡ some id → entity_of (s.phase j) ≡ some id → i ≡ j

abbrev pub Consistent : {E : Type 0} → Platform → System E → Type 0
Consistent p s = (fs : List Fence) × (seen : Positions) × IsConsistent p fs seen s

module _ {E : Type 0} (p : Platform) (fs : List Fence) (seen : Positions) where
  -- A worker that receives a packet of an entity that nobody holds.
  pub receives-IsConsistent :
      (e : Engine E) (phase : ℕ → Phase) (i : ℕ) (pkt : IngressPacket)
      → phase i ≡ idle
      → ((j : ℕ) → entity_of (phase j) ≢ some pkt.entity_id)
      → IsConsistent p fs seen (record { engine = e; phase = phase })
      → IsConsistent p fs seen (record { engine = e; phase = update phase i (received pkt) })
  receives-IsConsistent e phase i pkt resting nobody c = record {
    tracks = c.tracks;
    stored = c.stored;
    fits = λ k. elim (Bool-cases (i == k)) [
      | inl h ↦ rw h (c.free pkt.entity_id nobody)
      | inr h ↦ rw h (c.fits k)
    ];
    free = λ id none_holds. c.free id (λ k h. none_holds k (elim (Bool-cases (i == k)) [
      | inl same ↦ ground (arith, same, resting, h)
      | inr other ↦ rw other h
    ]));
    apart = λ k l id h m. ground (arith, nobody k, nobody l, c.apart k l id, h, m);
  }

  module _ (seen' : Positions) (e e' : Engine E) (phase : ℕ → Phase) (i : ℕ) (next : Phase)
      (c : IsConsistent p fs seen (record { engine = e; phase = phase }))
      (a : Advanced p seen seen' e e' (phase i) next) where
    held_before :
        (k id : ℕ) → entity_of (update phase i next k) ≡ some id → entity_of (phase k) ≡ some id
    held_before k id h = elim (Bool-cases (i == k)) [
      | inl same ↦ elim a.keeps [
        | inl kept ↦ ground (arith, same, kept, h)
        | inr (gone, back) ↦ ground (arith, same, gone, h)
      ]
      | inr other ↦ ground (arith, other, h)
    ]

    -- An entity that neither this worker nor any other holds.
    free_other :
        (id : ℕ)
        → ((k : ℕ) → entity_of (update phase i next k) ≢ some id)
        → entity_of (phase i) ≢ some id
        → seen' id ≡ last_position e' id
    free_other id nobody away =
        let (s, l) = a.others id away in
        s
        ∙ c.free id (λ k h. elim (Bool-cases (i == k)) [
          | inl same ↦ away (ground (arith, same, h))
          | inr other ↦ nobody k (rw other h)
        ])
        ∙ sym l

    free_after :
        (id : ℕ)
        → ((k : ℕ) → entity_of (update phase i next k) ≢ some id)
        → seen' id ≡ last_position e' id
    free_after id nobody = elim a.keeps [
      | inl kept ↦
          free_other id nobody (λ h. nobody i (ap entity_of (update_self phase i next) ∙ kept ∙ h))
      | inr (gone, back) ↦ elim (Option-cases (entity_of (phase i))) [
        | inl h ↦ free_other id nobody (λ m. ground (arith, h, m))
        | inr (j, h) ↦ elim (Bool-cases (j == id)) [
          | inl same ↦ back id (h ∙ ap some ((==_iff j id).0 same))
          | inr other ↦ free_other id nobody (λ m. ground (arith, h, m, other))
        ]
      ]
    ]

    -- A worker that makes an access.
    pub Advanced-IsConsistent :
        IsConsistent p fs seen' (record { engine = e'; phase = update phase i next })
    Advanced-IsConsistent = record {
      tracks = a.tracks;
      stored = a.fences ∙ c.stored;
      fits = λ k. elim (Bool-cases (i == k)) [
        | inl h ↦ rw h a.fits
        | inr h ↦ rw h (
            Fits-cong p seen seen' (last_position e) (last_position e') (phase k)
              (λ id held. a.others id (λ m. ground (arith, h, c.apart i k id m held))) (c.fits k))
      ];
      free = free_after;
      apart = λ k l id h m. c.apart k l id (held_before k id h) (held_before l id m);
    }
