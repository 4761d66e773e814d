-- ===== src/Fanout/Multi/Delivery.antt =====
-- What BroadcastMulti puts into the channels.
use aerocast.Prelude.{
  ℕ, ◌+◌, ◌≤◌, ◌≡◌, ◌∙◌, refl, sym, ap, List, [], ◌∷◌, ◌++◌, Option, none, some, false,
  if◌then◌else◌, ◌==◌, Bool-cases, inl, inr, ==_iff, append_assoc, append-nil,
}
use aerocast.Prelude.Assoc.{lookup, insert, lookup-insert}
use aerocast.Binary.Egress.{EgressRecord, EgressBuffer}
use aerocast.Float.{Platform}
use aerocast.Spatial.Hash.{shard_key}
use aerocast.Fanout.Subscribers.{Fanout, Subscription}
use aerocast.Fanout.Subscribers.Index.{IsSound}
use aerocast.Fanout.Subscribers.Extend.{Extends, nothing_added, two_steps}
use aerocast.Fanout.Subscribers.Delivery.{mail_to, broadcast-mail_to}
use aerocast.Fanout.Multi.{group_of, group_loop, group_records, total_loop, broadcast_multi}

-- The frames that the groups, one after the other, add to a subscriber's channel that holds `waiting`.
abbrev pub mails :
    List (ℕ × Subscription)
    → (ℕ → List ℕ)
    → List (ℕ × List EgressRecord)
    → ℕ
    → List (List ℕ)
    → List (List ℕ)
mails subs index [] j waiting = []
mails subs index ((cell, recs) ∷ groups) j waiting =
    let mine : List (List ℕ) =
      mail_to subs (index cell) recs j (record { frames = waiting; closed = false }) in
    mine ++ mails subs index groups j (waiting ++ mine)

-- The records of a cell, in their order.
abbrev pub in_cell : Platform → ℕ → List EgressRecord → List EgressRecord
in_cell p cell [] = []
in_cell p cell (rec ∷ recs) =
    if shard_key p rec.lat rec.lng == cell then rec ∷ in_cell p cell recs else in_cell p cell recs

group_of-insert :
    (k cell : ℕ) (rec : EgressRecord) (groups : List (ℕ × List EgressRecord))
    → group_of cell (insert k (group_of k groups ++ (rec ∷ [])) groups)
      ≡ (if k == cell then group_of cell groups ++ (rec ∷ []) else group_of cell groups)
unfolding group_of
group_of-insert k cell rec groups =
    ap (λ (o : Option (List EgressRecord)). elim o [ none ↦ [] | some recs ↦ recs ])
      (lookup-insert k cell (group_of k groups ++ (rec ∷ [])) groups)
    ∙ elim (Bool-cases (k == cell)) [
      | inl same ↦ rw same (ap (λ i. group_of i groups ++ (rec ∷ [])) ((==_iff k cell).0 same))
      | inr differs ↦ rw differs refl
    ]

group_loop-in_cell :
    (p : Platform) (cell : ℕ) (recs : List EgressRecord) (groups : List (ℕ × List EgressRecord))
    → group_of cell (group_loop p recs groups) ≡ group_of cell groups ++ in_cell p cell recs
unfolding group_loop
group_loop-in_cell p cell [] groups = sym (append-nil (group_of cell groups))
group_loop-in_cell p cell (rec ∷ recs) groups =
    group_loop-in_cell p cell recs _
    ∙ ap (λ group. group ++ in_cell p cell recs)
        (group_of-insert (shard_key p rec.lat rec.lng) cell rec groups)
    ∙ elim (Bool-cases (shard_key p rec.lat rec.lng == cell)) [
      | inl same ↦ rw same (append_assoc (group_of cell groups) (rec ∷ []) (in_cell p cell recs))
      | inr differs ↦ rw differs refl
    ]

total_loop-mails :
    (recycled : EgressBuffer) (groups : List (ℕ × List EgressRecord)) (e : Fanout) (total : ℕ)
    → 20 ≤ recycled.cap
    → IsSound e
    → (e' : Fanout) × (n : ℕ) × (total_loop recycled groups e total ≡ some (e', n))
      × Extends e e' (λ j ch. mails e.subs e.cell_index groups j ch.frames)
unfolding total_loop
total_loop-mails recycled [] e total room s = (
  e,
  total,
  refl,
  nothing_added e (λ j ch. mails e.subs e.cell_index [] j ch.frames) s (λ j ch. refl),
)
total_loop-mails recycled ((cell, recs) ∷ groups) e total room s =
    let (e1, n1, one, ext1) = broadcast-mail_to recycled e cell recs room s in
    let (e2, n2, rest, ext2) = total_loop-mails recycled groups e1 (total + n1) room ext1.sound in
    (
      e2,
      n2,
      rw one rest,
      two_steps e e1 e2 (mail_to e.subs (e.cell_index cell) recs)
          (λ j ch. mails e1.subs e1.cell_index groups j ch.frames)
          (λ j ch. mails e.subs e.cell_index ((cell, recs) ∷ groups) j ch.frames) ext1 ext2
          (λ j ch ch1 eq. rw (ext1.same_subs, ext1.same_index, eq) refl),
    )

-- BroadcastMulti on a sound engine never panics, whatever order the range over the groups takes, and changes no
-- subscription and no index. It groups the records by their cells, each cell's in their order, and a
-- subscriber's channel gets, group by group, the frame that Broadcast of the group adds. The pooled buffer can
-- hold a record.
pub broadcast_multi-mails :
    (p : Platform) (recycled : EgressBuffer)
    (order : List (ℕ × List EgressRecord) → List (ℕ × List EgressRecord)) (e : Fanout)
    (recs : List EgressRecord)
    → 20 ≤ recycled.cap
    → IsSound e
    → (e' : Fanout) × (n : ℕ) × (broadcast_multi p recycled order e recs ≡ some (e', n))
      × Extends e e' (λ j ch. mails e.subs e.cell_index (order (group_records p recs)) j ch.frames)
      × ((cell : ℕ) → group_of cell (group_records p recs) ≡ in_cell p cell recs)
unfolding broadcast_multi group_records group_of lookup
broadcast_multi-mails p recycled order e recs room s =
    let (e', n, run, ext) = total_loop-mails recycled (order (group_records p recs)) e 0 room s in
    (e', n, run, ext, λ cell. group_loop-in_cell p cell recs [])
