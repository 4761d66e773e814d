-- ===== src/Transport/Ws.antt =====
-- pkg/transport/ws/ws.go: the connections and the counters of the server, the handler of a connection
-- and its write loop. The HTTP server, the sockets and the clock are outside; what they answer are
-- arguments.
pub mod Writer
pub mod Drain
use Prim.Native.String.{String}
use aerocast.Prelude.{
  ◌>>=◌, ℕ, ◌+◌, ◌*◌, ◌%◌, ◌^◌, Bool, true, false, List, [], ◌∷◌, ◌++◌, length, Option, none, some,
  if◌then◌else◌,
}
use aerocast.Prelude.Assoc.{insert, delete}
use aerocast.Prelude.Array.{update}
use aerocast.Prelude.Int.{ℤ, pos}
use aerocast.Fanout.Channel
use aerocast.Fanout.Channel.{Channel, ChannelManager}

pub record Config : Type 0 where
  pub listen_addr : String
  pub ping_interval : ℤ
  pub pong_timeout : ℤ
  pub max_frame_size : ℤ
  pub write_buffer_per_conn : ℤ

unfoldable pub default_config : Config
default_config = record {
  listen_addr = "127.0.0.1:9100";
  ping_interval = pos (30 * 10 ^ 9);
  pong_timeout = pos (10 * 10 ^ 9);
  max_frame_size = pos 1024;
  write_buffer_per_conn = pos 64;
}

-- A connection is its address.
pub record Server : Type 0 where
  pub cfg : Config
  pub conns : List (ℕ × ℕ)
  pub sub_id : ℕ
  pub total_conns : ℕ
  pub broadcast_bytes : ℕ

unfoldable pub new_server : Config → Server
new_server cfg = record { cfg = cfg; conns = []; sub_id = 0; total_conns = 0; broadcast_bytes = 0 }

-- What the server calls of the type Callbacks, on a state of type S; the others it never calls. A panic
-- is none. `set_channels` puts the manager back that the calls of Channels all share.
pub record Callbacks (S : Type 0) : Type 0 where
  pub on_subscribe : S → ℕ → ℕ → ℕ → ℕ → S
  pub on_disconnect : S → ℕ → Option S
  pub channels : S → ChannelManager
  pub set_channels : S → ChannelManager → S

-- What strconv.ParseFloat makes of the three parameters of the request, none for an error.
pub record Query : Type 0 where
  pub lat : Option ℕ
  pub lng : Option ℕ
  pub radius : Option ℕ

or_default : Option ℕ → ℕ → ℕ
or_default none d = d
or_default (some x) d = x

-- handleWS up to the counting of the connection: the next id goes to the connection.
unfoldable pub accept : Server → ℕ → Server × ℕ
accept s conn =
    let id : ℕ = (s.sub_id + 1) % 2 ^ 64 in
    (
      record s {
        sub_id = id;
        conns = insert conn id s.conns;
        total_conns = (s.total_conns + 1) % 2 ^ 64;
      },
      id,
    )

-- The call of OnSubscribe, with 1000000.0 for a radius that does not parse.
unfoldable pub subscribe_query : {S : Type 0} → Callbacks S → S → ℕ → Query → S
unfolding or_default
subscribe_query cb st id q =
    cb.on_subscribe st id (or_default q.lat 0) (or_default q.lng 0)
      (or_default q.radius 0x412e_8480_0000_0000)

-- readLoop: what each ReadMessage answers, a message or an error. It ends at the first error, and no
-- message has an effect; the result tells whether it has ended.
unfoldable pub read_loop : List (Option (List ℕ)) → Bool
read_loop [] = false
read_loop (none ∷ messages) = true
read_loop (some message ∷ messages) = read_loop messages

-- delete(s.conns, conn)
unfoldable pub leave : Server → ℕ → Server
leave s conn = record s { conns = delete conn s.conns }

-- handleWS once readLoop has returned; a failed upgrade is none.
finish : {S : Type 0} → Callbacks S → Server → S → ℕ → ℕ → Option (Server × S)
finish cb s st conn id = do st' ← cb.on_disconnect st id; some (leave s conn, st')

-- handleWS, with what its connection reads. When the reads have not ended, it still waits for one. The
-- write loop that it starts runs beside it.
unfoldable pub handle_ws :
    {S : Type 0}
    → Callbacks S
    → Server
    → S
    → Option ℕ
    → Query
    → List (Option (List ℕ))
    → Option (Server × S)
unfolding finish
handle_ws cb s st none q reads = some (s, st)
handle_ws cb s st (some conn) q reads =
    let (s', id) = accept s conn in
    let st' = subscribe_query cb st id q in
    if read_loop reads then finish cb s' st' conn id else some (s', st')

-- One round of writeLoop's select: the ticker fires or the channel is ready, and the write succeeds or
-- fails.
pub data Event : Type 0 where
  ping ready : Bool → Event

-- A receive from a channel: a frame, the end of a closed channel that holds none, or a wait.
pub data Receipt : Type 0 where
  frame : List ℕ → ChannelManager → Receipt
  ended waits : Receipt

frames_receipt : ChannelManager → ℕ → List (List ℕ) → Bool → Receipt
frames_receipt cm ref [] true = ended
frames_receipt cm ref [] false = waits
frames_receipt cm ref (f ∷ fs) closed =
    frame f (record cm { heap = update cm.heap ref (record { frames = fs; closed = closed }) })

unfoldable pub receive : ChannelManager → ℕ → Receipt
unfolding frames_receipt
receive cm ref = frames_receipt cm ref (cm.heap ref).frames (cm.heap ref).closed

-- s.broadcastBytes.Add(uint64(len(frame)))
count_bytes : Server → List ℕ → Server
count_bytes s f = record s { broadcast_bytes = (s.broadcast_bytes + length f) % 2 ^ 64 }

-- The rounds of writeLoop that are to come, with the frames written so far. The flag tells that the loop
-- has returned.
pub write_rounds :
    List Event
    → ℕ
    → Server
    → ChannelManager
    → List (List ℕ)
    → Server × ChannelManager × List (List ℕ) × Bool
unfolding count_bytes
write_rounds [] ref s cm out = (s, cm, out, false)
write_rounds (ping true ∷ events) ref s cm out = write_rounds events ref s cm out
write_rounds (ping false ∷ events) ref s cm out = (s, cm, out, true)
write_rounds (ready ok ∷ events) ref s cm out = elim (receive cm ref) [
  | ended ↦ (s, cm, out, true)
  | waits ↦ write_rounds events ref s cm out
  | frame f cm' ↦ elim ok [
    | false ↦ (s, cm', out, true)
    | true ↦ write_rounds events ref (count_bytes s f) cm' (out ++ (f ∷ []))
  ]
]

-- writeLoop; it returns at once when the subscriber has no channel.
unfoldable pub write_loop :
    List Event → ℕ → Server → ChannelManager → Server × ChannelManager × List (List ℕ) × Bool
unfolding write_rounds
write_loop events id s cm = elim (Channel.get cm id) [
  | none ↦ (s, cm, [], true)
  | some ref ↦ write_rounds events ref s cm []
]
