-- ===== src/Fanout/Channel.antt =====
-- pkg/fanout/channel.go. A channel is an object that the manager's map and a connection's write loop
-- both refer to, so channels stand in a heap and the map holds references.
pub mod Laws
use aerocast.Prelude.{
  ℕ, suc, ◌+◌, Bool, true, false, List, [], ◌∷◌, ◌++◌, length, Option, none, some, ltb,
  if◌then◌else◌,
}
use aerocast.Prelude.Assoc.{lookup, insert, delete}
use aerocast.Prelude.Array.{update}

abbrev pub default_channel_buffer : ℕ
default_channel_buffer = 1024

-- The frames that wait, oldest first.
pub record Channel : Type 0 where
  pub frames : List (List ℕ)
  pub closed : Bool

pub record ChannelManager : Type 0 where
  pub chans : List (ℕ × ℕ)
  pub heap : ℕ → Channel
  pub next_ref : ℕ

unfoldable pub new_channel_manager : ChannelManager
new_channel_manager = record {
  chans = [];
  heap = λ ref. record { frames = []; closed = true };
  next_ref = 0;
}

-- Create puts a new channel under the id; a channel that was there stays open, out of the map.
unfoldable pub create : ChannelManager → ℕ → ChannelManager × ℕ
create cm id = (
  record {
    chans = insert id cm.next_ref cm.chans;
    heap = update cm.heap cm.next_ref (record { frames = []; closed = false });
    next_ref = cm.next_ref + 1;
  },
  cm.next_ref,
)

-- Get; `none` is the nil channel.
unfoldable pub get : ChannelManager → ℕ → Option ℕ
get cm id = lookup id cm.chans

-- Remove closes the channel; `none` is the panic on a channel that is closed already.
remove_at : ChannelManager → ℕ → Option ℕ → Option ChannelManager
remove_at cm id none = some cm
remove_at cm id (some ref) =
    if (cm.heap ref).closed
    then none
    else some (record cm {
      chans = delete id cm.chans;
      heap = update cm.heap ref (record { frames = (cm.heap ref).frames; closed = true });
    })

unfoldable pub remove : ChannelManager → ℕ → Option ChannelManager
unfolding remove_at
remove cm id = remove_at cm id (lookup id cm.chans)

unfoldable pub count_channels : ChannelManager → ℕ
count_channels cm = length cm.chans

-- What `select { case ch <- frame: ... default: ... }` does.
pub data Sent : Type 0 where
  sent : ChannelManager → Sent
  full : Sent
  panicked : Sent

unfoldable pub try_send : ChannelManager → ℕ → List ℕ → Sent
try_send cm ref frame =
    if (cm.heap ref).closed
    then panicked
    else if ltb (length (cm.heap ref).frames) default_channel_buffer
    then sent (record cm {
      heap =
          update cm.heap ref
            (record { frames = (cm.heap ref).frames ++ (frame ∷ []); closed = false });
    })
    else full
