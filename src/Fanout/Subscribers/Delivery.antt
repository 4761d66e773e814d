-- ===== src/Fanout/Subscribers/Delivery.antt =====
-- What Broadcast puts into the channels.
use aerocast.Prelude.{
  ℕ, ◌≤◌, ◌<◌, ◌≡◌, ◌∙◌, refl, sym, ap, List, [], ◌∷◌, ◌++◌, length, none, some, ltb, ◌==◌,
  if◌then◌else◌, arith, Option-cases, Bool-cases, ==_iff, inl, inr, subst, append-nil,
}
use aerocast.Prelude.Count.{count, IsDistinct}
use aerocast.Prelude.Assoc.{lookup}
use aerocast.Binary.Egress.{EgressRecord, EgressBuffer}
use aerocast.Binary.Egress.Laws.{frame, append_all-frame}
use aerocast.Fanout.Channel
use aerocast.Fanout.Channel.{Channel, ChannelManager, try_send, sent, full, panicked}
use aerocast.Fanout.Subscribers.{
  Fanout, Subscription, broadcast, snapshot, deliver_loop, deliver_one, wanted, offer,
}
use aerocast.Fanout.Subscribers.Index.{IsSound}
use aerocast.Fanout.Subscribers.Extend.{mail, Extends, offer_lem, nothing_added, two_steps}

abbrev only : ℕ → Subscription → List EgressRecord → ℕ → Channel → List (List ℕ)
only id sub recs j ch = if id == j then mail sub recs ch else []

get_lem : (cm : ChannelManager) (id : ℕ) → Channel.get cm id ≡ lookup id cm.chans
unfolding Channel.get
get_lem cm id = refl

-- One subscriber: its channel gets its mail, and no other channel changes.
deliver_one_lem :
    (recycled : EgressBuffer) (recs : List EgressRecord) (e : Fanout) (n id : ℕ)
    (sub : Subscription)
    → 20 ≤ recycled.cap
    → IsSound e
    → lookup id e.subs ≡ some sub
    → (e' : Fanout) × (n' : ℕ) × (deliver_one recycled recs e n (some sub) ≡ some (e', n'))
      × Extends e e' (only id sub recs)
unfolding deliver_one
deliver_one_lem recycled recs e n id sub room s h =
    let (buf, filled, bytes, len) = append_all-frame recycled (wanted sub recs) room in
    elim (Bool-cases (length (wanted sub recs) == 0)) [
      | inl none_wanted ↦ (
        e,
        n,
        rw (filled, deliver_one) (rw len (rw none_wanted)),
        nothing_added e (only id sub recs) s (λ j ch. ground (arith, none_wanted)),
      )
      | inr some_wanted ↦
          let (ref, r) = s.served id sub h in
          let (e', n', offered, ext) = offer_lem e n id ref (frame (wanted sub recs)) s r in
          (
            e',
            n',
            rw (filled, deliver_one)
                (rw (len, some_wanted, bytes)
                  (ap (λ o. offer e n o (frame (wanted sub recs)))
                      (ap (Channel.get e.channels) (s.owned id sub h) ∙ get_lem e.channels id ∙ r)
                    ∙ offered)),
            record {
              sound = ext.sound;
              same_subs = ext.same_subs;
              same_index = ext.same_index;
              same_chans = ext.same_chans;
              frames = λ j k eq. ground (arith, ext.frames j k eq, some_wanted);
            },
          )
    ]

-- The mail of each subscriber in a list of ids.
abbrev pub mail_to :
    List (ℕ × Subscription) → List ℕ → List EgressRecord → ℕ → Channel → List (List ℕ)
mail_to subs ids recs j ch =
    if ltb 0 (count j ids)
    then elim (lookup j subs) [ none ↦ [] | some sub ↦ mail sub recs ch ]
    else []

-- Every id of the list is subscribed.
abbrev AllSubscribed : List (ℕ × Subscription) → List ℕ → Type 0
AllSubscribed subs ids =
    (j : ℕ) → 0 < count j ids → (sub : Subscription) × (lookup j subs ≡ some sub)

mail_to-cons :
    (subs : List (ℕ × Subscription)) (id : ℕ) (ids : List ℕ) (recs : List EgressRecord)
    (sub : Subscription)
    → lookup id subs ≡ some sub
    → IsDistinct (id ∷ ids)
    → (j : ℕ) (ch ch1 : Channel) → ch1.frames ≡ ch.frames ++ only id sub recs j ch
    → only id sub recs j ch ++ mail_to subs ids recs j ch1 ≡ mail_to subs (id ∷ ids) recs j ch
unfolding count
mail_to-cons subs id ids recs sub h d j ch ch1 eq = elim (Bool-cases (id == j)) [
  | inl same ↦ ground (
    arith,
    same,
    d j,
    ap (λ k. lookup k subs) (sym ((==_iff id j).0 same)) ∙ h,
    append-nil (mail sub recs ch),
  )
  | inr differs ↦
      let frames : ch1.frames ≡ ch.frames = ground (arith, eq, differs, append-nil ch.frames) in
      elim (Option-cases (lookup j subs)) [
        | inl absent ↦ ground (arith, differs, absent)
        | inr (other, o) ↦ ground (arith, differs, o, ap length frames)
      ]
]

deliver_loop_lem :
    (recycled : EgressBuffer) (recs : List EgressRecord) (ids : List ℕ) (e : Fanout) (n : ℕ)
    → 20 ≤ recycled.cap
    → IsSound e
    → IsDistinct ids
    → AllSubscribed e.subs ids
    → (e' : Fanout) × (n' : ℕ) × (deliver_loop recycled recs (snapshot e.subs ids) e n
        ≡ some (e', n'))
      × Extends e e' (mail_to e.subs ids recs)
unfolding deliver_loop snapshot count
deliver_loop_lem recycled recs [] e n room s d all =
    (e, n, refl, nothing_added e (mail_to e.subs [] recs) s (λ j ch. refl))
deliver_loop_lem recycled recs (id ∷ ids) e n room s d all =
    let (sub, h) = all id (ground arith) in
    let (e1, n1, one, ext1) = deliver_one_lem recycled recs e n id sub room s h in
    let (e2, n2, rest, ext2) =
      deliver_loop_lem recycled recs ids e1 n1 room ext1.sound (λ j. omega (arith, d j))
        (λ j c.
          let (sub', h') = all j (omega arith) in (sub', ap (lookup j) ext1.same_subs ∙ h')) in
    (
      e2,
      n2,
      rw (h, deliver_loop)
          (rw one (
            ap (λ subs. deliver_loop recycled recs (snapshot subs ids) e1 n1) (sym ext1.same_subs)
            ∙ rest)),
      two_steps e e1 e2 (only id sub recs) (mail_to e1.subs ids recs)
          (mail_to e.subs (id ∷ ids) recs) ext1 ext2
          (subst
            (λ subs.
              (j : ℕ) (ch ch1 : Channel)
              → ch1.frames ≡ ch.frames ++ only id sub recs j ch
              → only id sub recs j ch ++ mail_to subs ids recs j ch1
                ≡ mail_to e.subs (id ∷ ids) recs j ch)
            (sym ext1.same_subs) (mail_to-cons e.subs id ids recs sub h d)),
    )

-- Broadcast of records to a cell on a sound engine never panics, and it changes no subscription and
-- no index. Afterwards a subscriber of the cell has one more frame in its channel when it wants a
-- record and fewer than 1024 frames wait: the frame of the records that it wants, in order. No other
-- channel changes. The pooled buffer can hold a record.
pub broadcast-mail_to :
    (recycled : EgressBuffer) (e : Fanout) (cell : ℕ) (recs : List EgressRecord)
    → 20 ≤ recycled.cap
    → IsSound e
    → (e' : Fanout) × (n : ℕ) × (broadcast recycled e cell recs ≡ some (e', n))
      × Extends e e' (mail_to e.subs (e.cell_index cell) recs)
unfolding broadcast
broadcast-mail_to recycled e cell recs room s =
    deliver_loop_lem recycled recs (e.cell_index cell) e 0 room s
      (λ j. elim (Option-cases (lookup j e.subs)) [
        | inl absent ↦ ground (arith, s.indexed cell j, absent)
        | inr (sub, h) ↦ ground (arith, s.indexed cell j, h, s.once j sub h cell)
      ])
      (λ j c. elim (Option-cases (lookup j e.subs)) [
        | inl absent ↦ absurd (ground (arith, s.indexed cell j, absent))
        | inr (sub, h) ↦ (sub, h)
      ])
