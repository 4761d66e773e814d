-- ===== src/Fanout/Subscribers/Race.antt =====
-- A broadcast and an Unsubscribe at a time.
use aerocast.Prelude.{ℕ, ◌≡◌, refl, List, none, some}
use aerocast.Prelude.Assoc.{lookup, delete}
use aerocast.Fanout.Channel
use aerocast.Fanout.Channel.Laws.{remove-try_send}
use aerocast.Fanout.Subscribers.{
  Fanout, Subscription, unsubscribe, unsubscribe_at, unindex_cells, offer,
}
use aerocast.Fanout.Subscribers.Index.{IsSound}

-- A broadcast that has fetched a subscriber's channel, and whose frame for it is sent after an Unsubscribe of that
-- id: the Unsubscribe goes well, and the send then panics, on the closed channel.
pub unsubscribe-offer :
    (e : Fanout) (id ref n : ℕ) (sub : Subscription) (frame : List ℕ)
    → IsSound e
    → lookup id e.subs ≡ some sub
    → Channel.get e.channels id ≡ some ref
    → (e' : Fanout) × (unsubscribe e id ≡ some e')
      × (offer e' n (Channel.get e.channels id) frame ≡ none)
unfolding unsubscribe unsubscribe_at offer
unsubscribe-offer e id ref n sub frame s h fetched =
    let (cm, removed, panics) = remove-try_send e.channels id ref frame s.wired fetched in
    (
      record e {
        subs = delete id e.subs;
        cell_index = unindex_cells id sub.cells e.cell_index;
        channels = cm;
      },
      rw (h, unsubscribe_at) (rw removed refl),
      rw fetched (rw (panics, offer) refl),
    )
