-- ===== src/Fanout/Subscribers/Index.antt =====
-- The cell index lists an id as often as its subscription lists the cell.
use aerocast.Prelude.{
  ℕ, ◌+◌, ◌-◌, ◌≡◌, List, [], ◌∷◌, ◌++◌, Option, none, some, ◌==◌, if◌then◌else◌, arith,
}
use aerocast.Prelude.Count.{count, count-append, IsDistinct}
use aerocast.Prelude.Assoc.{lookup, Distinct}
use aerocast.Prelude.Array.{update}
use aerocast.Fanout.Channel.Laws.{IsWired}
use aerocast.Fanout.Subscribers.{Fanout, Subscription, index_cells, unindex_cells, remove_first}

pub count-index_cells :
    (id : ℕ) (cells : List ℕ) (index : ℕ → List ℕ) (cell j : ℕ)
    → count j (index_cells id cells index cell)
      ≡ count j (index cell) + (if id == j then count cell cells else 0)
unfolding index_cells count
count-index_cells id [] index cell j = ground arith
count-index_cells id (c ∷ cells) index cell j = ground (
  arith,
  count-index_cells id cells (update index c (index c ++ (id ∷ []))) cell j,
  count-append j (index c) (id ∷ []),
)

count-remove_first :
    (id : ℕ) (sids : List ℕ) (j : ℕ)
    → count j (remove_first id sids) ≡ count j sids - (if id == j then 1 else 0)
unfolding remove_first count
count-remove_first id [] j = omega arith
count-remove_first id (sid ∷ sids) j = ground (arith, count-remove_first id sids j)

pub count-unindex_cells :
    (id : ℕ) (cells : List ℕ) (index : ℕ → List ℕ) (cell j : ℕ)
    → count j (unindex_cells id cells index cell)
      ≡ count j (index cell) - (if id == j then count cell cells else 0)
unfolding unindex_cells count
count-unindex_cells id [] index cell j = ground arith
count-unindex_cells id (c ∷ cells) index cell j = ground (
  arith,
  count-unindex_cells id cells (update index c (remove_first id (index c))) cell j,
  count-remove_first id (index c) j,
)

-- How often a subscription lists a cell.
abbrev pub listings : ℕ → Option Subscription → ℕ
listings cell none = 0
listings cell (some sub) = count cell sub.cells

-- Every subscription stands under its own id, has a channel, lists distinct cells, and is in the index of
-- exactly these.
pub record IsSound (e : Fanout) : Type 0 where
  pub distinct : Distinct e.subs
  pub indexed : (cell id : ℕ) → count id (e.cell_index cell) ≡ listings cell (lookup id e.subs)
  pub owned : (id : ℕ) (sub : Subscription) → lookup id e.subs ≡ some sub → sub.id ≡ id
  pub once : (id : ℕ) (sub : Subscription) → lookup id e.subs ≡ some sub → IsDistinct sub.cells
  pub wired : IsWired e.channels
  pub served :
      (id : ℕ) (sub : Subscription)
      → lookup id e.subs ≡ some sub
      → (ref : ℕ) × (lookup id e.channels.chans ≡ some ref)
