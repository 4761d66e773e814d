-- ===== src/Fanout/Subscribers/Life.antt =====
-- Every operation keeps the subscriptions, the index and the channels in step.
use aerocast.Prelude.{
  ℕ, ◌≡◌, ◌≢◌, refl, Bool, true, false, List, [], none, some, ◌==◌, if◌then◌else◌, arith,
  Option-cases, Bool-cases, ==_iff, inl, inr, subst, ◌&&◌,
}
use aerocast.Prelude.Count.{count}
use aerocast.Prelude.Assoc.{
  lookup, insert, delete, lookup-insert, lookup-delete, insert-Distinct, delete-Distinct,
}
use aerocast.Float.{Platform}
use aerocast.Spatial.Hash.{shards_for_radius}
use aerocast.Spatial.Hash.Cover.{shards_for_radius-IsDistinct}
use aerocast.Fanout.Channel.{ChannelManager, create}
use aerocast.Fanout.Channel.Laws.{create-IsWired, remove-IsWired, new_channel_manager-IsWired}
use aerocast.Fanout.Subscribers.{
  Fanout, Subscription, new_fanout, subscribe, unsubscribe, unsubscribe_at, follow, follow_at,
  unfollow, unfollow_at, drop_follow, unindex_cells, wants_entity, has_member,
}
use aerocast.Fanout.Subscribers.Index.{IsSound, count-index_cells, count-unindex_cells}

pub lookup-create :
    (cm : ChannelManager) (id j : ℕ)
    → lookup j (create cm id).0.chans ≡ (if id == j then some cm.next_ref else lookup j cm.chans)
unfolding create
lookup-create cm id j = lookup-insert id j cm.next_ref cm.chans

module _ (p : Platform) (e : Fanout) (id lat lng radius_m : ℕ) where
  pub lookup-subscribe :
      (j : ℕ)
      → lookup j (subscribe p e id lat lng radius_m).subs ≡ (
          if id == j
          then some (record {
            id = id;
            center_lat = lat;
            center_lng = lng;
            radius_m = radius_m;
            cells = shards_for_radius p lat lng radius_m;
            following = none;
          })
          else lookup j e.subs)
  unfolding subscribe
  lookup-subscribe j = lookup-insert id j _ e.subs

  -- Subscribe under an id that is not subscribed: the new subscription wants every entity, the other
  -- subscriptions stay, and the structures stay in step.
  pub subscribe-IsSound :
      IsSound e → lookup id e.subs ≡ none → IsSound (subscribe p e id lat lng radius_m)
  unfolding subscribe
  subscribe-IsSound s new = record {
    distinct = insert-Distinct id _ e.subs s.distinct;
    indexed = λ cell j. ground (
      arith,
      count-index_cells id (shards_for_radius p lat lng radius_m) e.cell_index cell j,
      lookup-subscribe j,
      s.indexed cell j,
    );
    owned = λ j sub h. ground (arith, lookup-subscribe j, s.owned j sub);
    once = λ j sub h.
        ground (
          arith,
          lookup-subscribe j,
          s.once j sub,
          shards_for_radius-IsDistinct p lat lng radius_m,
        );
    wired = create-IsWired e.channels id s.wired;
    served = λ j sub h. elim (Bool-cases (id == j)) [
      | inl same ↦ (e.channels.next_ref, rw (lookup-create e.channels id j, same))
      | inr other ↦
          let (ref, r) = s.served j sub (ground (arith, lookup-subscribe j, other)) in
          (ref, rw (lookup-create e.channels id j, other) r)
    ];
  }

-- Unsubscribe never panics. Afterwards the id has no subscription and stands in no
-- cell; every other subscription is as it was; and the structures stay in step.
pub unsubscribe-IsSound :
    (e : Fanout) (id : ℕ)
    → IsSound e
    → (e' : Fanout) × (unsubscribe e id ≡ some e')
      × IsSound e'
      × ((j : ℕ) → lookup j e'.subs ≡ (if id == j then none else lookup j e.subs))
      × ((cell : ℕ) → count id (e'.cell_index cell) ≡ 0)
unfolding unsubscribe unsubscribe_at
unsubscribe-IsSound e id s = elim (Option-cases (lookup id e.subs)) [
  | inl absent ↦ (
    e,
    rw (absent, unsubscribe_at),
    s,
    λ j. ground arith,
    λ cell. ground (arith, s.indexed cell id),
  )
  | inr (sub, e_sub) ↦
      let (cm, removed, wired, chans) = remove-IsWired e.channels id s.wired in
      (
        record e {
          subs = delete id e.subs;
          cell_index = unindex_cells id sub.cells e.cell_index;
          channels = cm;
        },
        rw (e_sub, unsubscribe_at) (rw removed),
        record {
          distinct = delete-Distinct id e.subs s.distinct;
          indexed = λ cell j. ground (
            arith,
            count-unindex_cells id sub.cells e.cell_index cell j,
            lookup-delete id j e.subs s.distinct,
            s.indexed cell j,
          );
          owned =
              λ j other h. ground (arith, lookup-delete id j e.subs s.distinct, s.owned j other);
          once = λ j other h. ground (arith, lookup-delete id j e.subs s.distinct, s.once j other);
          wired = wired;
          served = λ j other h. elim (Bool-cases (id == j)) [
            | inl same ↦ cc (rw (lookup-delete id j e.subs s.distinct, same) at h)
            | inr differs ↦
                let (ref, r) =
                  s.served j other
                    (ground (arith, lookup-delete id j e.subs s.distinct, differs)) in
                (ref, ground (arith, chans j, differs))
          ];
        },
        λ j. lookup-delete id j e.subs s.distinct,
        λ cell.
            ground
              (arith, count-unindex_cells id sub.cells e.cell_index cell id, s.indexed cell id),
      )
]

-- A subscription in the place of another with the same id and cells.
replace-IsSound :
    (e : Fanout) (id : ℕ) (old sub : Subscription)
    → IsSound e
    → lookup id e.subs ≡ some old
    → sub.cells ≡ old.cells
    → sub.id ≡ old.id
    → IsSound (record e { subs = insert id sub e.subs })
replace-IsSound e id old sub s h cells ids = record {
  distinct = insert-Distinct id sub e.subs s.distinct;
  indexed = λ cell j. ground (arith, lookup-insert id j sub e.subs, s.indexed cell j);
  owned =
      λ j other k. ground (arith, lookup-insert id j sub e.subs, s.owned j other, s.owned id old);
  once = λ j other k. ground (arith, lookup-insert id j sub e.subs, s.once j other, s.once id old);
  wired = s.wired;
  served = λ j other k. elim (Bool-cases (id == j)) [
    | inl same ↦
        let (ref, r) = s.served id old h in
        (ref, subst (λ i. lookup i e.channels.chans ≡ some ref) ((==_iff id j).0 same) r)
    | inr differs ↦ s.served j other (ground (arith, lookup-insert id j sub e.subs, differs))
  ];
}

-- Whether the subscriber with this id wants an entity; one that is not subscribed wants none.
abbrev pub wants : Fanout → ℕ → ℕ → Bool
wants e id entity = elim (lookup id e.subs) [ none ↦ false | some sub ↦ wants_entity sub entity ]

abbrev pub follows_some : Fanout → ℕ → Bool
follows_some e id = elim (lookup id e.subs) [
  | none ↦ false
  | some sub ↦ elim sub.following [ none ↦ false | some set ↦ true ]
]

-- Follow keeps the structures in step. The subscriber then wants that entity, and of the others those
-- that it wanted, if it had followed before; a first Follow ends its wanting every entity. Nothing
-- changes for another subscriber.
pub follow-IsSound :
    (e : Fanout) (id entity : ℕ) (sub : Subscription)
    → IsSound e
    → lookup id e.subs ≡ some sub
    → IsSound (follow e id entity)
      × ((other : ℕ)
          → wants (follow e id entity) id other
            ≡ (if entity == other then true else follows_some e id && wants e id other))
      × ((j other : ℕ) → id ≢ j → wants (follow e id entity) j other ≡ wants e j other)
unfolding follow wants_entity has_member
follow-IsSound e id entity sub s h = (
  rw (h, follow_at) (replace-IsSound e id sub new s h refl refl),
  λ other.
      rw (h, follow_at)
        (ground (
          arith,
          lookup-insert id id new e.subs,
          lookup-insert entity other tt set,
          no_member other,
        )),
  λ j other ne. rw (h, follow_at) (ground (arith, lookup-insert id j new e.subs)),
)
  where
    set : List (ℕ × Unit {0})
    set = elim sub.following [ none ↦ [] | some members ↦ members ]

    new : Subscription
    new = record sub { following = some (insert entity tt set) }

    no_member : (k : ℕ) → lookup {V = Unit {0}} k [] ≡ none
    no_member k = unfold lookup in refl

-- Unfollow keeps the structures in step.
pub unfollow-IsSound :
    (e : Fanout) (id entity : ℕ) (sub : Subscription)
    → IsSound e
    → lookup id e.subs ≡ some sub
    → IsSound (unfollow e id entity)
unfolding unfollow
unfollow-IsSound e id entity sub s h =
    rw (h, unfollow_at)
      (replace-IsSound e id sub (record sub { following = drop_follow entity sub.following }) s h
        refl refl)

-- Follow and Unfollow of an id that is not subscribed change nothing.
pub follow_keeps : (e : Fanout) (id entity : ℕ) → IsSound e → IsSound (follow e id entity)
unfolding follow
follow_keeps e id entity s = elim (Option-cases (lookup id e.subs)) [
  | inl absent ↦ rw (absent, follow_at) s
  | inr (sub, h) ↦ (follow-IsSound e id entity sub s h).0
]

pub unfollow_keeps : (e : Fanout) (id entity : ℕ) → IsSound e → IsSound (unfollow e id entity)
unfolding unfollow
unfollow_keeps e id entity s = elim (Option-cases (lookup id e.subs)) [
  | inl absent ↦ rw (absent, unfollow_at) s
  | inr (sub, h) ↦ unfollow-IsSound e id entity sub s h
]

pub new_fanout-IsSound : IsSound new_fanout
unfolding new_fanout lookup count
new_fanout-IsSound = record {
  distinct = tt;
  indexed = λ cell id. refl;
  owned = λ id sub h. cc h;
  once = λ id sub h. cc h;
  wired = new_channel_manager-IsWired;
  served = λ id sub h. cc h;
}
