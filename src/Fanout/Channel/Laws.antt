-- ===== src/Fanout/Channel/Laws.antt =====
-- The channels in the manager's map are open, and no two ids share one.
use aerocast.Prelude.{
  ℕ, Option, ◌<◌, ◌≤◌, ◌≡◌, ◌≢◌, ◌⊎◌, refl, true, false, List, [], ◌∷◌, ◌++◌, length, none, some,
  ltb, ◌==◌, if◌then◌else◌, arith, Option-cases, Bool-cases, inl, inr,
}
use aerocast.Prelude.Assoc.{
  lookup, delete, Distinct, lookup-insert, lookup-delete, insert-Distinct, delete-Distinct,
}
use aerocast.Prelude.Array.{update}
use aerocast.Fanout.Channel.{
  Channel, ChannelManager, new_channel_manager, create, remove, remove_at, try_send, get, sent,
  full, panicked, default_channel_buffer,
}

pub record IsWired (cm : ChannelManager) : Type 0 where
  pub distinct : Distinct cm.chans
  pub live : (id ref : ℕ) → lookup id cm.chans ≡ some ref → (cm.heap ref).closed ≡ false
  pub fresh : (id ref : ℕ) → lookup id cm.chans ≡ some ref → ref < cm.next_ref
  pub injective :
      (id id' ref : ℕ) → lookup id cm.chans ≡ some ref → lookup id' cm.chans ≡ some ref → id ≡ id'

pub new_channel_manager-IsWired : IsWired new_channel_manager
unfolding new_channel_manager lookup
new_channel_manager-IsWired = record {
  distinct = tt;
  live = λ id ref h. cc h;
  fresh = λ id ref h. cc h;
  injective = λ id id' ref h k. cc h;
}

pub create-IsWired : (cm : ChannelManager) (id : ℕ) → IsWired cm → IsWired (create cm id).0
unfolding create
create-IsWired cm id w = record {
  distinct = insert-Distinct id cm.next_ref cm.chans w.distinct;
  live = λ j ref e.
      ground (arith, lookup-insert id j cm.next_ref cm.chans, w.live j ref, w.fresh j ref);
  fresh = λ j ref e. ground (arith, lookup-insert id j cm.next_ref cm.chans, w.fresh j ref);
  injective = λ i j ref e h. ground (
    arith,
    lookup-insert id i cm.next_ref cm.chans,
    lookup-insert id j cm.next_ref cm.chans,
    w.fresh i ref,
    w.fresh j ref,
    w.injective i j ref,
  );
}

-- The channel behind a reference after Remove of the id that has this one.
abbrev pub closing : ChannelManager → ℕ → Option ℕ → Channel
closing cm ref none = cm.heap ref
closing cm ref (some r) =
    if r == ref then record { frames = (cm.heap ref).frames; closed = true } else cm.heap ref

-- Remove closes the id's channel, with its frames kept, and no other.
pub remove-closing :
    (cm cm' : ChannelManager) (id ref : ℕ)
    → remove cm id ≡ some cm'
    → cm'.heap ref ≡ closing cm ref (lookup id cm.chans)
unfolding remove remove_at
remove-closing cm cm' id ref run = elim (Option-cases (lookup id cm.chans)) [
  | inl e ↦ ground (arith, run, e)
  | inr (r, e) ↦ ground (arith, run, e)
]

-- Remove of any id: it never panics; the id's channel, if it had one, is closed with its frames
-- kept, and only it is taken out.
pub remove-IsWired :
    (cm : ChannelManager) (id : ℕ)
    → IsWired cm
    → (cm' : ChannelManager) × (remove cm id ≡ some cm')
      × IsWired cm'
      × ((j : ℕ) → lookup j cm'.chans ≡ (if id == j then none else lookup j cm.chans))
unfolding remove remove_at
remove-IsWired cm id w = elim (Option-cases (lookup id cm.chans)) [
  | inl e ↦ (cm, rw (e, remove_at), w, λ j. ground arith)
  | inr (ref, e) ↦ (
    record cm {
      chans = delete id cm.chans;
      heap = update cm.heap ref (record { frames = (cm.heap ref).frames; closed = true });
    },
    rw (e, remove_at) (rw (w.live id ref e)),
    record {
      distinct = delete-Distinct id cm.chans w.distinct;
      live = λ j r h.
          ground (arith, lookup-delete id j cm.chans w.distinct, w.live j r, w.injective id j r);
      fresh = λ j r h. ground (arith, lookup-delete id j cm.chans w.distinct, w.fresh j r);
      injective = λ i j r h k. ground (
        arith,
        lookup-delete id i cm.chans w.distinct,
        lookup-delete id j cm.chans w.distinct,
        w.injective i j r,
      );
    },
    λ j. lookup-delete id j cm.chans w.distinct,
  )
]

-- A send to a channel of a wired map either appends the frame behind those that wait, fewer than 1024, or
-- finds the channel full; it does not panic, and the map stays as it was.
pub try_send-IsWired :
    (cm : ChannelManager) (id ref : ℕ) (frame : List ℕ)
    → IsWired cm
    → lookup id cm.chans ≡ some ref
    → ((try_send cm ref frame ≡ full) × (1024 ≤ length (cm.heap ref).frames))
      ⊎ ((cm' : ChannelManager) × (try_send cm ref frame ≡ sent cm')
          × IsWired cm'
          × (cm'.chans ≡ cm.chans)
          × ((cm'.heap ref).frames ≡ (cm.heap ref).frames ++ (frame ∷ []))
          × (length (cm.heap ref).frames < 1024)
          × ((r : ℕ) → ref ≢ r → cm'.heap r ≡ cm.heap r))
unfolding try_send
try_send-IsWired cm id ref frame w e =
    elim (Bool-cases (ltb (length (cm.heap ref).frames) default_channel_buffer)) [
      | inl room ↦ inr (
        cm',
        rw (w.live id ref e, room),
        record {
          distinct = w.distinct;
          live = λ j r h. ground (arith, w.live j r);
          fresh = w.fresh;
          injective = w.injective;
        },
        refl,
        ground arith,
        ground arith,
        λ r ne. ground arith,
      )
      | inr none_left ↦ inl (rw (w.live id ref e, none_left), ground arith)
    ]
  where
    cm' : ChannelManager
    cm' = record cm {
      heap =
          update cm.heap ref
            (record { frames = (cm.heap ref).frames ++ (frame ∷ []); closed = false });
    }

-- The channel that Remove takes out is closed, with its frames.
pub remove_closes :
    (cm : ChannelManager) (id ref : ℕ)
    → IsWired cm
    → lookup id cm.chans ≡ some ref
    → (cm' : ChannelManager) × (remove cm id ≡ some cm')
      × (cm'.heap ref ≡ record { frames = (cm.heap ref).frames; closed = true })
unfolding remove remove_at
remove_closes cm id ref w h = (
  record cm {
    chans = delete id cm.chans;
    heap = update cm.heap ref (record { frames = (cm.heap ref).frames; closed = true });
  },
  rw (h, remove_at) (rw (w.live id ref h)),
  ground arith,
)

-- A broadcast that has fetched a subscriber's channel panics when the subscriber is taken out before the
-- frame is sent: the channel is closed by then.
pub remove-try_send :
    (cm : ChannelManager) (id ref : ℕ) (frame : List ℕ)
    → IsWired cm
    → get cm id ≡ some ref
    → (cm' : ChannelManager) × (remove cm id ≡ some cm') × (try_send cm' ref frame ≡ panicked)
unfolding get try_send
remove-try_send cm id ref frame w h =
    let (cm', removed, shut) = remove_closes cm id ref w h in (cm', removed, rw shut)
