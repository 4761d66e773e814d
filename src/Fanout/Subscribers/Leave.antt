-- ===== src/Fanout/Subscribers/Leave.antt =====
-- What Unsubscribe leaves of the subscriptions, the index and the channels (pkg/fanout/engine.go, channel.go).
use aerocast.Prelude.{
  ℕ, ◌≤◌, ◌≡◌, ◌∙◌, refl, sym, ap, true, List, [], ◌∷◌, Option, none, some, ◌==◌, if◌then◌else◌,
  arith, Option-cases, Bool-cases, inl, inr, ltb, subst, ==_iff,
}
use aerocast.Prelude.Count.{count}
use aerocast.Prelude.Assoc.{lookup, delete}
use aerocast.Prelude.Array.{update}
use aerocast.Float.{Platform}
use aerocast.Fanout.Channel.{Channel, ChannelManager, create}
use aerocast.Fanout.Subscribers.{
  Fanout, Subscription, subscribe, unsubscribe, unsubscribe_at, unindex_cells, remove_first,
}
use aerocast.Fanout.Channel.Laws.{closing, remove-closing, remove-IsWired}
use aerocast.Fanout.Subscribers.Index.{IsSound}
use aerocast.Fanout.Subscribers.Life.{unsubscribe-IsSound, lookup-subscribe, lookup-create}

-- A list of ids without this one.
abbrev pub without : ℕ → List ℕ → List ℕ
without id [] = []
without id (k ∷ ks) = if id == k then without id ks else k ∷ without id ks

without_none : (id : ℕ) (ks : List ℕ) → count id ks ≡ 0 → without id ks ≡ ks
unfolding count
without_none id [] h = refl
without_none id (k ∷ ks) h = elim (Bool-cases (id == k)) [
  | inl same ↦ absurd (ground (arith, h, same))
  | inr other ↦ rw other (ap (λ t. k ∷ t) (without_none id ks (ground (arith, h, other))))
]

remove_first-without : (id : ℕ) (ks : List ℕ) → count id ks ≤ 1 → remove_first id ks ≡ without id ks
unfolding count remove_first
remove_first-without id [] h = refl
remove_first-without id (k ∷ ks) h = elim (Bool-cases (id == k)) [
  | inl same ↦ rw same (ground (arith, same, sym (without_none id ks (ground (arith, h, same)))))
  | inr other ↦ ground (arith, other, remove_first-without id ks (ground (arith, h, other)))
]

pub without_once : (id : ℕ) (ks : List ℕ) → count id (without id ks) ≡ 0
unfolding count
without_once id [] = refl
without_once id (k ∷ ks) = ground (arith, without_once id ks)

count-without_id : (id : ℕ) (ks : List ℕ) → without id (without id ks) ≡ without id ks
count-without_id id ks = without_none id (without id ks) (without_once id ks)

-- unindex_cells on an index that has the id once at most in each cell.
unindex_cells-without :
    (id : ℕ) (cells : List ℕ) (index : ℕ → List ℕ) (cell : ℕ)
    → ((c : ℕ) → count id (index c) ≤ 1)
    → unindex_cells id cells index cell
      ≡ (if ltb 0 (count cell cells) then without id (index cell) else index cell)
unfolding unindex_cells count
unindex_cells-without id [] index cell once = ground arith
unindex_cells-without id (c ∷ cells) index cell once =
    let here = remove_first-without id (index c) (once c) in
    let gone : count id (remove_first id (index c)) ≡ 0 =
      ap (count id) here ∙ without_once id (index c) in
    elim (Bool-cases (c == cell)) [
      | inl same ↦
          unindex_cells-without id cells (update index c (remove_first id (index c))) cell
            (λ k. ground (arith, once k, gone))
          ∙ ground (arith, same, here, count-without_id id (index c))
      | inr other ↦
          unindex_cells-without id cells (update index c (remove_first id (index c))) cell
            (λ k. ground (arith, once k, gone))
          ∙ ground (arith, other)
    ]

-- The entry of a subscriber's own id after it has left.
abbrev pub gone : {A : Type 0} → Option Subscription → Option A → Option A
gone none x = x
gone (some sub) x = none

abbrev pub closed_if : Option Subscription → ChannelManager → ℕ → ℕ → Channel
closed_if none cm id ref = cm.heap ref
closed_if (some sub) cm id ref = closing cm ref (lookup id cm.chans)

-- What Unsubscribe of an id makes of e.
pub record Left (e : Fanout) (id : ℕ) (e' : Fanout) : Type 0 where
  pub sound : IsSound e'
  pub subs : (j : ℕ) → lookup j e'.subs ≡ (if id == j then none else lookup j e.subs)
  pub cells : (cell : ℕ) → e'.cell_index cell ≡ without id (e.cell_index cell)
  pub chans :
      (j : ℕ)
      → lookup j e'.channels.chans ≡ (
          if id == j
          then gone (lookup id e.subs) (lookup id e.channels.chans)
          else lookup j e.channels.chans)
  pub heap : (ref : ℕ) → e'.channels.heap ref ≡ closed_if (lookup id e.subs) e.channels id ref
  pub dropped : e'.dropped_frames ≡ e.dropped_frames

-- Unsubscribe on a sound engine never panics. Afterwards the engine is sound, the id has no subscription, and
-- the other subscriptions are as they were; each cell of the index is as it was, in order, but without the
-- id. If the id was subscribed, it has no channel any more, and the one that it had is closed with its frames
-- kept; every other channel, and the way to it from its id, is as it was.
pub unsubscribe-Left :
    (e : Fanout) (id : ℕ) → IsSound e → (e' : Fanout) × (unsubscribe e id ≡ some e') × Left e id e'
unfolding unsubscribe unsubscribe_at
unsubscribe-Left e id s = elim (Option-cases (lookup id e.subs)) [
  | inl absent ↦ (
    e,
    rw (absent, unsubscribe_at) refl,
    record {
      sound = s;
      subs = λ j. rw_absent j absent;
      cells = λ cell.
          sym (without_none id (e.cell_index cell) (ground (arith, s.indexed cell id, absent)));
      chans = λ j. rw absent (same_entry j);
      heap = λ ref. rw absent refl;
      dropped = refl;
    },
  )
  | inr (sub, h) ↦
      let (cm, removed, wired, chans) = remove-IsWired e.channels id s.wired in
      let (e1, run, sound, subs, cells) = unsubscribe-IsSound e id s in
      let e2 : Fanout = record e {
        subs = delete id e.subs;
        cell_index = unindex_cells id sub.cells e.cell_index;
        channels = cm;
      } in
      let here : unsubscribe e id ≡ some e2 = rw (h, unsubscribe_at) (rw removed refl) in
      let same : e1 ≡ e2 = cc (run, here) in
      (
        e2,
        here,
        record {
          sound = subst IsSound same sound;
          subs =
              subst (λ x. (j : ℕ) → lookup j x.subs ≡ (if id == j then none else lookup j e.subs))
                same subs;
          cells = λ cell.
              unindex_cells-without id sub.cells e.cell_index cell
                (λ c. ground (arith, s.indexed c id, h, s.once id sub h c))
              ∙ listed (count cell sub.cells) (e.cell_index cell) (s.indexed cell id ∙ rw h refl);
          chans = λ j. rw h (chans j);
          heap = λ ref. rw h (remove-closing e.channels cm id ref removed);
          dropped = refl;
        },
      )
]
  where
    listed :
        (n : ℕ) (ks : List ℕ)
        → count id ks ≡ n
        → (if ltb 0 n then without id ks else ks) ≡ without id ks
    listed n ks k = elim (Bool-cases (ltb 0 n)) [
      | inl some_listed ↦ rw some_listed refl
      | inr none_listed ↦ rw none_listed (sym (without_none id ks (ground (arith, k, none_listed))))
    ]

    same_entry :
        (j : ℕ)
        → lookup j e.channels.chans
          ≡ (if id == j then lookup id e.channels.chans else lookup j e.channels.chans)
    same_entry j = elim (Bool-cases (id == j)) [
      | inl same ↦ rw same (ap (λ k. lookup k e.channels.chans) (sym ((==_iff id j).0 same)))
      | inr other ↦ rw other refl
    ]

    rw_absent :
        (j : ℕ)
        → lookup id e.subs ≡ none
        → lookup j e.subs ≡ (if id == j then none else lookup j e.subs)
    rw_absent j absent = elim (Bool-cases (id == j)) [
      | inl same ↦ rw same (ap (λ k. lookup k e.subs) (sym ((==_iff id j).0 same)) ∙ absent)
      | inr other ↦ rw other refl
    ]

-- Subscribe and then Unsubscribe of a new id: its channel is closed and empty, no id has it, and every other
-- channel is as it was.
pub subscribe-Left :
    (p : Platform) (e e' : Fanout) (id lat lng radius_m : ℕ)
    → lookup id e.subs ≡ none
    → Left (subscribe p e id lat lng radius_m) id e'
    → ((j : ℕ) → lookup j e'.channels.chans ≡ (if id == j then none else lookup j e.channels.chans))
      × ((ref : ℕ)
          → e'.channels.heap ref ≡ (
              if e.channels.next_ref == ref
              then record { frames = []; closed = true }
              else e.channels.heap ref))
unfolding subscribe create
subscribe-Left p e e' id lat lng radius_m new left =
    let subscribed = lookup-subscribe p e id lat lng radius_m id in
    let made = lookup-create e.channels id in
    (
      λ j. ground (arith, left.chans j, subscribed, made j, made id),
      λ ref. ground (arith, left.heap ref, subscribed, made id),
    )
