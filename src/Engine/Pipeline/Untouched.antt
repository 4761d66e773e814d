-- ===== src/Engine/Pipeline/Untouched.antt =====
-- What a tick leaves as it is, in any engine.
use aerocast.Prelude.{
  ℕ, zero, suc, ◌+◌, ◌≡◌, ◌∙◌, refl, subst, length, Option, none, some, ◌==◌, inl, inr, Bool-cases,
  Option-cases,
}
use aerocast.Binary.Egress.{EgressBuffer}
use aerocast.Spatial.Grid.{egress_records}
use aerocast.Fanout.Subscribers.{subscribers_in_cell, broadcast}
use aerocast.Engine.Cms
use aerocast.Engine.Pipeline.{Engine, broadcast_cell, cells_loop, broadcast_tick, tick}

-- The same grid, positions, fences and counts, and the same callbacks, whatever the channels do.
pub record Same {E : Type 0} (e e' : Engine E) : Type 0 where
  pub grid : e'.grid ≡ e.grid
  pub prev_pos : e'.prev_pos ≡ e.prev_pos
  pub fences : e'.fences ≡ e.fences
  pub evaluator : e'.evaluator ≡ e.evaluator
  pub packets_routed : e'.packets_routed ≡ e.packets_routed
  pub packets_dropped : e'.packets_dropped ≡ e.packets_dropped

Same-refl : {E : Type 0} (e : Engine E) → Same e e
Same-refl e = record {
  grid = refl;
  prev_pos = refl;
  fences = refl;
  evaluator = refl;
  packets_routed = refl;
  packets_dropped = refl;
}

Same-trans : {E : Type 0} (a b c : Engine E) → Same a b → Same b c → Same a c
Same-trans a b c s t = record {
  grid = t.grid ∙ s.grid;
  prev_pos = t.prev_pos ∙ s.prev_pos;
  fences = t.fences ∙ s.fences;
  evaluator = t.evaluator ∙ s.evaluator;
  packets_routed = t.packets_routed ∙ s.packets_routed;
  packets_dropped = t.packets_dropped ∙ s.packets_dropped;
}

-- The same of a result, where there is one.
abbrev Leaves : {E : Type 0} → Engine E → Option (Engine E) → Type 0
Leaves e none = Unit {0}
Leaves e (some e') = Same e e'

Leaves-trans :
    {E : Type 0} (a b : Engine E) (o : Option (Engine E)) → Same a b → Leaves b o → Leaves a o
Leaves-trans a b none s t = tt
Leaves-trans a b (some c) s t = Same-trans a b c s t

module _ {E : Type 0} (recycled : EgressBuffer) where
  broadcast_cell-Leaves : (e : Engine E) (cell : ℕ) → Leaves e (broadcast_cell recycled e cell)
  unfolding broadcast_cell
  broadcast_cell-Leaves e cell = elim (Bool-cases (subscribers_in_cell e.fanout cell == 0)) [
    | inl nobody ↦ rw nobody (Same-refl e)
    | inr somebody ↦ elim (Bool-cases (length (egress_records e.grid cell) == 0)) [
      | inl nothing ↦ rw (somebody, nothing) (Same-refl e)
      | inr records ↦
          elim (Option-cases (broadcast recycled e.fanout cell (egress_records e.grid cell))) [
            | inl h ↦ rw (somebody, records, h) tt
            | inr (r, h) ↦
                rw (somebody, records, h)
                  (record {
                    grid = refl;
                    prev_pos = refl;
                    fences = refl;
                    evaluator = refl;
                    packets_routed = refl;
                    packets_dropped = refl;
                  })
          ]
    ]
  ]

  cells_loop-Leaves : (n cell : ℕ) (e : Engine E) → Leaves e (cells_loop n cell recycled e)
  unfolding cells_loop
  cells_loop-Leaves zero cell e = Same-refl e
  cells_loop-Leaves (suc n) cell e = elim (Option-cases (broadcast_cell recycled e cell)) [
    | inl h ↦ rw h tt
    | inr (e1, h) ↦ rw h (
        Leaves-trans e e1 (cells_loop n (cell + 1) recycled e1)
          (subst (Leaves e) h (broadcast_cell-Leaves e cell)) (cells_loop-Leaves n (cell + 1) e1))
  ]

  pub tick-Same : (e e' : Engine E) → tick recycled e ≡ some e' → Same e e'
  unfolding tick broadcast_tick
  tick-Same e e' h =
      let counted : Engine E = record e { cms = Cms.reset e.cms } in
      Same-trans e counted e'
        (record {
          grid = refl;
          prev_pos = refl;
          fences = refl;
          evaluator = refl;
          packets_routed = refl;
          packets_dropped = refl;
        })
        (subst (Leaves counted) h (cells_loop-Leaves 256 0 counted))
