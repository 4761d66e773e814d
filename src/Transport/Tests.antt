-- ===== src/Transport/Tests.antt =====
-- The listener and a write loop on concrete values.
use aerocast.Prelude.{
  ℕ, ◌+◌, ◌*◌, ◌%◌, ◌^◌, ◌<◌, ◌≡◌, refl, true, false, List, [], ◌∷◌, length, none, some, arith, All,
  replicate, Bool,
}
use aerocast.Prelude.Assoc.{lookup}
use aerocast.Prelude.Int.{pos, ltb_ℤ}
use aerocast.Binary.Codec.{CoordPacket}
use aerocast.Binary.Codec.Laws.{IsCoord}
use aerocast.Binary.LittleEndian.{IsU32}
use aerocast.Float.Samples.{bay_lat, bay_lng}
use aerocast.Fanout.Channel.{ChannelManager, get, remove}
use aerocast.Fanout.Channel.Laws.{IsWired}
use aerocast.Transport.Udp
use aerocast.Transport.Udp.{
  Listener, IngressPacket, Turn, cancelled, answered, messages, failed, timeout, process_packet,
  run,
}
use aerocast.Transport.Udp.Packets.{datagram, arrived, process_packet-datagram}
use aerocast.Transport.Udp.Batches.{IsBounded, Took}
use aerocast.Transport.Udp.Turns.{IsHonest, datagrams, ending, run-Took}
use aerocast.Transport.Ws
use aerocast.Transport.Ws.{Server, Event, ping, ready, new_server, write_rounds}
use aerocast.Transport.Ws.Writer.{Written, bytes_of, write_rounds-Written}
use aerocast.Transport.Ws.Drain.{tries, remove-write_rounds}

-- A listener that reads one datagram at a time, with room for one packet.
abbrev idle : Listener
idle = record {
  cfg = record Udp.default_config { batch_size = pos 1 };
  out = [];
  capacity = 1;
  dropped_packets = 0;
}

abbrev bay : CoordPacket
bay = record { lng = bay_lng; lat = bay_lat }

bay-IsCoord : IsCoord bay
bay-IsCoord = (omega arith, omega arith)

seven-IsU32 : IsU32 7
seven-IsU32 = omega arith

fits : ltb_ℤ (pos 20) idle.cfg.packet_size ≡ false
unfolding Udp.default_config
fits = refl

process_packet-datagram_example :
    (bytes : List ℕ) × (datagram (replicate 20 0) 7 bay ≡ some bytes)
    × (process_packet idle bytes 100
        ≡ (arrived idle (record { entity_id = 7; coord = bay; timestamp = 100 }), none))
process_packet-datagram_example =
    process_packet-datagram idle (replicate 20 0) 7 bay 100 refl seven-IsU32 bay-IsCoord fits

idle-IsBounded : IsBounded idle
unfolding Udp.default_config
idle-IsBounded = record { within = omega arith; size = refl }

-- A datagram of 20 bytes, a timeout, one of 16, and the end of the context.
abbrev turns : List Turn
turns =
    answered (messages (replicate 44 1) (20 ∷ [])) 100 false
    ∷ answered (failed timeout) 101 false
    ∷ answered (messages (replicate 44 2) (16 ∷ [])) 102 false
    ∷ cancelled
    ∷ []

turns-IsHonest : All (IsHonest 0 (1 * 44)) turns
turns-IsHonest = (
  (refl, omega arith, (omega arith, tt)),
  (tt, ((refl, omega arith, (omega arith, tt)), (tt, tt))),
)

run-Took_example :
    (l' : Listener) × (run turns idle ≡ some (l', ending turns)) × Took idle (datagrams turns) l'
run-Took_example = run-Took turns idle 0 idle-IsBounded refl turns-IsHonest

-- A server, and a channel with a frame under the id 1.
abbrev server : Server
server = new_server Ws.default_config

abbrev one_channel : ChannelManager
one_channel = record {
  chans = (1, 0) ∷ [];
  heap = λ ref. record { frames = (9 ∷ []) ∷ []; closed = false };
  next_ref = 1;
}

one_channel-IsWired : IsWired one_channel
unfolding lookup
one_channel-IsWired = record {
  distinct = (tt, tt);
  live = λ id ref h. refl;
  fresh = λ id ref h. ground (arith, h);
  injective = λ id id' ref h k. ground (arith, h, k);
}

channel1 : get one_channel 1 ≡ some 0
unfolding get lookup
channel1 = refl

small : server.broadcast_bytes < 2 ^ 64
unfolding new_server
small = omega arith

abbrev events : List Event
events = ping true ∷ ready true ∷ ready true ∷ []

enough : length (one_channel.heap 0).frames < tries events
enough = omega arith

remove-write_rounds_example :
    (cm' cm'' : ChannelManager) × (remove one_channel 1 ≡ some cm')
    × (write_rounds events 0 server cm' [] ≡ (
      record server {
        broadcast_bytes = (server.broadcast_bytes + bytes_of (one_channel.heap 0).frames) % 2 ^ 64;
      },
      cm'',
      (one_channel.heap 0).frames,
      true,
    ))
remove-write_rounds_example =
    remove-write_rounds events 1 0 server one_channel one_channel-IsWired channel1 small
      (refl, (refl, (refl, tt))) enough

write_rounds-Written_example :
    (s' : Server) × (cm' : ChannelManager) × (out' : List (List ℕ)) × (stopped : Bool)
    × (write_rounds events 0 server one_channel [] ≡ (s', cm', out', stopped))
    × Written 0 server one_channel [] s' cm' out'
write_rounds-Written_example = write_rounds-Written events 0 server one_channel [] small
