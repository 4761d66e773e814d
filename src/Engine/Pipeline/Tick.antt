-- ===== src/Engine/Pipeline/Tick.antt =====
-- A tick: what it keeps, and that it does not panic.
use aerocast.Prelude.{
  ℕ, zero, suc, ◌+◌, ◌≤◌, ◌≡◌, ◌∙◌, refl, ap, List, length, some, ◌==◌, Bool-cases, inl, inr,
}
use aerocast.Binary.Egress.{EgressBuffer}
use aerocast.Float.{Platform}
use aerocast.Spatial.Grid.{egress_records}
use aerocast.Geofence.Fence.{Fence}
use aerocast.Fanout.Subscribers.{subscribers_in_cell}
use aerocast.Fanout.Subscribers.Delivery.{broadcast-mail_to}
use aerocast.Engine.Cms
use aerocast.Engine.Pipeline.{Engine, broadcast_cell, cells_loop, broadcast_tick, tick}
use aerocast.Engine.Pipeline.Ready.{IsReady}

-- The engine e' is e with other channels: the same subscriptions and cells, and the same state
-- elsewhere, except that frames may have been sent or dropped.
pub record OnlySent {E : Type 0} (e e' : Engine E) : Type 0 where
  pub subs : e'.fanout.subs ≡ e.fanout.subs
  pub cells : e'.fanout.cell_index ≡ e.fanout.cell_index
  pub rest : e' ≡ record e { fanout = e'.fanout }

module _ {E : Type 0} (p : Platform) (fs : List Fence) (recycled : EgressBuffer)
    (room : 20 ≤ recycled.cap) where
  broadcast_cell-IsReady :
      (e : Engine E) (cell : ℕ)
      → IsReady p fs e
      → (e' : Engine E) × (broadcast_cell recycled e cell ≡ some e')
        × IsReady p fs e'
        × OnlySent e e'
  unfolding broadcast_cell
  broadcast_cell-IsReady e cell r = elim (Bool-cases (subscribers_in_cell e.fanout cell == 0)) [
    | inl nobody ↦ (e, rw nobody, r, record { subs = refl; cells = refl; rest = refl })
    | inr somebody ↦ elim (Bool-cases (length (egress_records e.grid cell) == 0)) [
      | inl nothing ↦
          (e, rw (somebody, nothing), r, record { subs = refl; cells = refl; rest = refl })
      | inr records ↦
          let (fan, n, sent, ext) =
            broadcast-mail_to recycled e.fanout cell (egress_records e.grid cell) room r.sound in
          (
            record e { fanout = fan },
            rw (somebody, records) (rw sent),
            record { tracks = r.tracks; stored = r.stored; sound = ext.sound },
            record { subs = ext.same_subs; cells = ext.same_index; rest = refl },
          )
    ]
  ]

  cells_loop-IsReady :
      (n cell : ℕ) (e : Engine E)
      → IsReady p fs e
      → (e' : Engine E) × (cells_loop n cell recycled e ≡ some e') × IsReady p fs e' × OnlySent e e'
  unfolding cells_loop
  cells_loop-IsReady zero cell e r = (e, refl, r, record { subs = refl; cells = refl; rest = refl })
  cells_loop-IsReady (suc n) cell e r =
      let (e1, run1, r1, same1) = broadcast_cell-IsReady e cell r in
      let (e2, run2, r2, same2) = cells_loop-IsReady n (cell + 1) e1 r1 in
      (
        e2,
        rw run1 run2,
        r2,
        record {
          subs = same2.subs ∙ same1.subs;
          cells = same2.cells ∙ same1.cells;
          rest =
              same2.rest
              ∙ ap {A = Engine E} {B = Engine E} (λ x. record x { fanout = e2.fanout }) same1.rest;
        },
      )

  -- A tick of a ready engine never panics and keeps it ready: it clears the sketch, and of the rest it
  -- changes only the channels and the count of dropped frames. The pooled buffer can hold a record.
  pub tick-IsReady :
      (e : Engine E)
      → IsReady p fs e
      → (e' : Engine E) × (tick recycled e ≡ some e')
        × IsReady p fs e'
        × OnlySent (record e { cms = λ row col. 0 }) e'
  unfolding tick broadcast_tick Cms.reset
  tick-IsReady e r =
      cells_loop-IsReady 256 0 (record e { cms = λ row col. 0 })
        (record { tracks = r.tracks; stored = r.stored; sound = r.sound })
