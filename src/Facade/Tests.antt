-- ===== src/Facade/Tests.antt =====
-- Publish on a concrete packet.
use aerocast.Prelude.{ℕ, ◌≡◌, refl, false, List, [], none, some, arith, replicate}
use aerocast.Prelude.Int.{pos, ltb_ℤ}
use aerocast.Binary.Codec.{CoordPacket}
use aerocast.Binary.Codec.Laws.{IsCoord}
use aerocast.Binary.LittleEndian.{IsU32}
use aerocast.Float.Samples.{flat, bay_lat, bay_lng}
use aerocast.Transport.Udp
use aerocast.Transport.Udp.{Listener}
use aerocast.Transport.Udp.Packets.{datagram}
use aerocast.Engine.Pipeline.{Engine, new_engine, process_all}
use aerocast.Facade.{publish}
use aerocast.Facade.Delivered.{publish-delivered}

abbrev idle : Listener
idle = record { cfg = Udp.default_config; out = []; capacity = 4; dropped_packets = 0 }

abbrev start : Engine ℕ
start = new_engine none none

abbrev bay : CoordPacket
bay = record { lng = bay_lng; lat = bay_lat }

bay-IsCoord : IsCoord bay
bay-IsCoord = (omega arith, omega arith)

seven-IsU32 : IsU32 7
seven-IsU32 = omega arith

fits : ltb_ℤ (pos 20) idle.cfg.packet_size ≡ false
unfolding Udp.default_config
fits = refl

publish-delivered_example :
    (bytes : List ℕ) × (datagram (replicate 20 0) 7 bay ≡ some bytes)
    × (process_all flat start (Udp.process_packet idle bytes 100).0.out 101
        ≡ publish flat start 7 bay_lat bay_lng 100 101)
publish-delivered_example =
    publish-delivered flat start idle (replicate 20 0) 7 bay 100 101 refl seven-IsU32 bay-IsCoord
      fits refl (omega arith)
