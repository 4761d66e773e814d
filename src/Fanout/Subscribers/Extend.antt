-- ===== src/Fanout/Subscribers/Extend.antt =====
-- An engine after more frames were put into its channels.
use aerocast.Prelude.{
  ℕ, ◌+◌, ◌%◌, ◌^◌, ◌≡◌, ◌∙◌, refl, sym, ap, List, [], ◌∷◌, ◌++◌, length, some, ltb, ◌==◌,
  if◌then◌else◌, arith, Bool-cases, ==_iff, inl, inr, append-nil, append_assoc,
}
use aerocast.Prelude.Assoc.{lookup}
use aerocast.Binary.Egress.{EgressRecord}
use aerocast.Binary.Egress.Laws.{frame}
use aerocast.Fanout.Channel.{Channel, ChannelManager}
use aerocast.Fanout.Channel.Laws.{IsWired, try_send-IsWired}
use aerocast.Fanout.Subscribers.{Fanout, Subscription, wanted, offer}
use aerocast.Fanout.Subscribers.Index.{IsSound}

-- The frames that a broadcast adds to a subscriber's channel: one with the records that it wants, if
-- there are any and fewer than 1024 frames wait.
abbrev pub mail : Subscription → List EgressRecord → Channel → List (List ℕ)
mail sub recs ch =
    if length (wanted sub recs) == 0
    then []
    else if ltb (length ch.frames) 1024
    then frame (wanted sub recs) ∷ []
    else []

-- The engine e' is e with more frames in its channels.
pub record Extends (e e' : Fanout) (added : ℕ → Channel → List (List ℕ)) : Type 0 where
  pub sound : IsSound e'
  pub same_subs : e'.subs ≡ e.subs
  pub same_index : e'.cell_index ≡ e.cell_index
  pub same_chans : e'.channels.chans ≡ e.channels.chans
  pub frames :
      (id ref : ℕ)
      → lookup id e.channels.chans ≡ some ref
      → (e'.channels.heap ref).frames
        ≡ (e.channels.heap ref).frames ++ added id (e.channels.heap ref)

pub rewire-IsSound :
    (e : Fanout) (cm : ChannelManager)
    → IsSound e
    → IsWired cm
    → cm.chans ≡ e.channels.chans
    → IsSound (record e { channels = cm })
rewire-IsSound e cm s w same = record {
  distinct = s.distinct;
  indexed = s.indexed;
  owned = s.owned;
  once = s.once;
  wired = w;
  served = λ id sub h. let (ref, r) = s.served id sub h in (ref, ap (lookup id) same ∙ r);
}

drop-IsSound : (e : Fanout) (n : ℕ) → IsSound e → IsSound (record e { dropped_frames = n })
drop-IsSound e n s = record {
  distinct = s.distinct;
  indexed = s.indexed;
  owned = s.owned;
  once = s.once;
  wired = s.wired;
  served = s.served;
}

-- Only the channel of one id gets this frame, if it has room.
abbrev to_one : ℕ → List ℕ → ℕ → Channel → List (List ℕ)
to_one id fr j ch = if id == j then (if ltb (length ch.frames) 1024 then fr ∷ [] else []) else []

pub offer_lem :
    (e : Fanout) (n id ref : ℕ) (fr : List ℕ)
    → IsSound e
    → lookup id e.channels.chans ≡ some ref
    → (e' : Fanout) × (n' : ℕ) × (offer e n (some ref) fr ≡ some (e', n'))
      × Extends e e' (to_one id fr)
unfolding offer
offer_lem e n id ref fr s h = elim (try_send-IsWired e.channels id ref fr s.wired h) [
  | inl (is_full, no_room) ↦ (
    record e { dropped_frames = (e.dropped_frames + 1) % 2 ^ 64 },
    n,
    rw (is_full, offer),
    record {
      sound = drop-IsSound e ((e.dropped_frames + 1) % 2 ^ 64) s;
      same_subs = refl;
      same_index = refl;
      same_chans = refl;
      frames = λ j r k. ground (arith, append-nil (e.channels.heap r).frames);
    },
  )
  | inr (cm, is_sent, wired, chans, appended, has_room, others) ↦ (
    record e { channels = cm },
    n + 1,
    rw (is_sent, offer),
    record {
      sound = rewire-IsSound e cm s wired chans;
      same_subs = refl;
      same_index = refl;
      same_chans = chans;
      frames = λ j r k. elim (Bool-cases (id == j)) [
        | inl same ↦ ground (arith, appended, has_room, same)
        | inr differs ↦ ground (
          arith,
          differs,
          append-nil (e.channels.heap r).frames,
          others r
              (λ eq. cc (differs, (==_iff id j).1 (s.wired.injective id j r (h ∙ ap some eq) k))),
        )
      ];
    },
  )
]

pub nothing_added :
    (e : Fanout) (added : ℕ → Channel → List (List ℕ))
    → IsSound e
    → ((id : ℕ) (ch : Channel) → added id ch ≡ [])
    → Extends e e added
nothing_added e added s h = record {
  sound = s;
  same_subs = refl;
  same_index = refl;
  same_chans = refl;
  frames = λ j r k.
      sym (append-nil (e.channels.heap r).frames)
      ∙ ap (λ t. (e.channels.heap r).frames ++ t) (sym (h j (e.channels.heap r)));
}

pub two_steps :
    (e e1 e2 : Fanout) (first second both : ℕ → Channel → List (List ℕ))
    → Extends e e1 first
    → Extends e1 e2 second
    → ((j : ℕ) (ch ch1 : Channel)
        → ch1.frames ≡ ch.frames ++ first j ch
        → first j ch ++ second j ch1 ≡ both j ch)
    → Extends e e2 both
two_steps e e1 e2 first second both x y h = record {
  sound = y.sound;
  same_subs = y.same_subs ∙ x.same_subs;
  same_index = y.same_index ∙ x.same_index;
  same_chans = y.same_chans ∙ x.same_chans;
  frames = λ j ref k.
      let ch : Channel = e.channels.heap ref in
      let ch1 : Channel = e1.channels.heap ref in
      y.frames j ref (ap (lookup j) x.same_chans ∙ k)
      ∙ ap (λ t. t ++ second j ch1) (x.frames j ref k)
      ∙ append_assoc ch.frames (first j ch) (second j ch1)
      ∙ ap (λ t. ch.frames ++ t) (h j ch ch1 (x.frames j ref k));
}
