-- ===== src/Transport/Udp.antt =====
-- pkg/transport/udp: what the listener makes of the datagrams that the sockets deliver. The system
-- calls, the deadlines and the clock are arguments; an int is an integer without bounds. `none` is a
-- panic. How Run closes the channel and Close waits for it is in Engine/Lifecycle.
pub mod Packets
pub mod Batches
pub mod Turns
use Prim.Native.String.{String}
use aerocast.Prelude.{
  ◌>>=◌, ℕ, zero, suc, ◌+◌, ◌-◌, ◌*◌, ◌/◌, ◌%◌, ◌^◌, Bool, true, false, List, [], ◌∷◌, ◌++◌, length,
  Option, none, some, ltb, leb, ◌==◌, if◌then◌else◌, ◌&&◌,
}
use aerocast.Prelude.Int.{ℤ, pos, negsuc, ltb_ℤ, ◌*ℤ◌, ◌+ℤ◌}
use aerocast.Binary.Codec.{CoordPacket, Error, ok, err, decode_coord_in_place, coord_packet_size}
use aerocast.Binary.LittleEndian.{get_bytes, slice}

pub record Config : Type 0 where
  pub listen_addr : String
  pub batch_size : ℤ
  pub read_buffer : ℤ
  pub channel_size : ℤ
  pub packet_size : ℤ

unfoldable pub default_config : Config
default_config = record {
  listen_addr = ":9101";
  batch_size = pos 32;
  read_buffer = pos (4 * 1024 * 1024);
  channel_size = pos 65_536;
  packet_size = pos coord_packet_size;
}

pub record IngressPacket : Type 0 where
  pub entity_id : ℕ
  pub coord : CoordPacket
  pub timestamp : ℕ

-- `out` holds the packets that wait in the channel, whose buffer has room for `capacity`.
pub record Listener : Type 0 where
  pub cfg : Config
  pub out : List IngressPacket
  pub capacity : ℕ
  pub dropped_packets : ℕ

-- make([]T, n) and make(chan T, n), where memory suffices: a negative size panics.
unfoldable pub make_len : ℤ → Option ℕ
make_len (pos n) = some n
make_len (negsuc n) = none

-- NewListener behind the calls that open the socket.
unfoldable pub new_listener : Config → Option Listener
unfolding make_len
new_listener cfg = do
  capacity ← make_len cfg.channel_size
  some (record { cfg = cfg; out = []; capacity = capacity; dropped_packets = 0 })

-- The error that processPacket returns; every caller drops it.
pub data Refusal : Type 0 where
  too_short : Refusal
  decoding : Error → Refusal

-- select { case l.out <- ip: default: l.droppedPackets.Add(1) }
pub enqueue : Listener → IngressPacket → Listener
enqueue l ip =
    if ltb (length l.out) l.capacity
    then record l { out = l.out ++ (ip ∷ []) }
    else record l { dropped_packets = (l.dropped_packets + 1) % 2 ^ 64 }

abbrev blank : CoordPacket
blank = record { lng = 0; lat = 0 }

-- processPacket behind the first decoding, which gave `pkt`.
identify : Listener → List ℕ → CoordPacket → ℕ → Listener × Option Refusal
unfolding enqueue
identify l bytes pkt now =
    if leb 20 (length bytes)
    then (elim (decode_coord_in_place (slice 4 20 bytes) pkt) [
      | err e ↦ (l, some (decoding e))
      | ok pkt' ↦ (
        enqueue l
            (record { entity_id = get_bytes (slice 0 4 bytes); coord = pkt'; timestamp = now }),
        none,
      )
    ])
    else (enqueue l (record { entity_id = 0; coord = pkt; timestamp = now }), none)

unfoldable pub process_packet : Listener → List ℕ → ℕ → Listener × Option Refusal
unfolding identify
process_packet l bytes now =
    if ltb_ℤ (pos (length bytes)) l.cfg.packet_size
    then (l, some too_short)
    else elim (decode_coord_in_place bytes blank) [
      | err e ↦ (l, some (decoding e))
      | ok pkt ↦ identify l bytes pkt now
    ]

-- bufSize := l.cfg.BatchSize * (l.cfg.PacketSize + 28), and the make.
unfoldable pub buffer_size : Config → Option ℕ
unfolding make_len
buffer_size cfg = make_len (cfg.batch_size *ℤ (cfg.packet_size +ℤ pos 28))

-- The error numbers that the code tells apart: EAGAIN with EWOULDBLOCK, the others for which Timeout()
-- holds, and the rest.
pub data Errno : Type 0 where
  again timeout other : Errno

-- What recvmmsg answers: the bytes that the buffer then holds and the length of each message, or an
-- error number.
pub data Received : Type 0 where
  messages : List ℕ → List ℕ → Received
  failed : Errno → Received

-- buf[from:to], whose bounds Go checks.
slice_of : ℕ → ℕ → List ℕ → Option (List ℕ)
slice_of from to buf = if leb from to && leb to (length buf) then some (slice from to buf) else none

-- The messages left, and the slot of the next one.
slots_loop : List ℕ → ℕ → ℕ → List ℕ → ℕ → Listener → Option Listener
unfolding slice_of
slots_loop [] i slot_size buf now l = some l
slots_loop (zero ∷ lens) i slot_size buf now l = slots_loop lens (i + 1) slot_size buf now l
slots_loop (suc n ∷ lens) i slot_size buf now l = do
  bytes ← slice_of (i * slot_size) (i * slot_size + suc n) buf
  slots_loop lens (i + 1) slot_size buf now (process_packet l bytes now).0

-- slotSize := len(buf) / batchSize, which panics at 0, as do the makes at a negative size, and
-- &buf[offset] in an empty buffer.
unfoldable pub slot_size_of : ℤ → ℕ → Option ℕ
slot_size_of (pos zero) n = none
slot_size_of (pos (suc k)) n = if n == 0 then none else some (n / suc k)
slot_size_of (negsuc k) n = none

-- The error that readAndProcessBatch returns for an error number.
errno_of : Errno → Option Errno
errno_of again = none
errno_of timeout = some timeout
errno_of other = some other

-- readAndProcessBatch of batch_linux.go, with a raw descriptor and a buffer of `buf_len` bytes.
unfoldable pub read_and_process_batch :
    Listener → ℕ → Received → ℕ → Option (Listener × Option Errno)
unfolding slots_loop slot_size_of errno_of
read_and_process_batch l buf_len answer now = do
  slot_size ← slot_size_of l.cfg.batch_size buf_len
  elim answer [
    | failed e ↦ some (l, errno_of e)
    | messages buf lens ↦ do l' ← slots_loop lens 0 slot_size buf now l; some (l', none)
  ]

-- readAndProcessBatch of batch_fallback.go: the bytes of one read, or an error.
unfoldable pub read_and_process_one : Listener → Option (List ℕ) → ℕ → Listener × Bool
read_and_process_one l none now = (l, false)
read_and_process_one l (some []) now = (l, true)
read_and_process_one l (some (b ∷ bytes)) now = ((process_packet l (b ∷ bytes) now).0, true)

-- readBatch of udp_fallback.go, which nothing calls: the room of its buffer, and the length of the datagram
-- that one read gives, or an error. The first result is the number of packets. A slice out of range panics.
unfoldable pub read_batch : Listener → ℕ → Option ℕ → Option (ℕ × Bool)
unfolding make_len
read_batch l room answer = do
  size ← make_len l.cfg.packet_size
  elim answer [
    | none ↦ if leb size room then some (0, false) else none
    | some n ↦ if leb size room then some ((if ltb n size then 0 else 1), true) else none
  ]

-- The rounds left of processBatch in udp_fallback.go, and its offset; the size is not negative.
process_batch_loop : ℕ → ℕ → ℕ → List ℕ → ℕ → Listener → Listener
process_batch_loop zero offset pkt_size buf now l = l
process_batch_loop (suc n) offset pkt_size buf now l =
    let rest =
      process_batch_loop n (offset + pkt_size) pkt_size buf now
        (process_packet l (slice offset (offset + pkt_size) buf) now).0 in
    if leb (offset + pkt_size) (length buf) then rest else l

-- One round of Run's loop: the context is done, or the kernel answers at a time; the flag says whether
-- Close has been called by then.
pub data Turn : Type 0 where
  cancelled : Turn
  answered : Received → ℕ → Bool → Turn

-- How Run ends: with ctx.Err(), with nil, or with an error; `waiting` means that no turn is left.
pub data Outcome : Type 0 where
  context_error stopped read_error waiting : Outcome

-- The rounds that are still to come.
pub run_loop : List Turn → ℕ → Listener → Option (Listener × Outcome)
run_loop [] buf_len l = some (l, waiting)
run_loop (cancelled ∷ turns) buf_len l = some (l, context_error)
run_loop (answered answer now closed ∷ turns) buf_len l =
    elim (read_and_process_batch l buf_len answer now) [
      | none ↦ none
      | some (l', none) ↦ run_loop turns buf_len l'
      | some (l', some timeout) ↦ run_loop turns buf_len l'
      | some (l', some other) ↦ some (l', if closed then stopped else read_error)
      | some (l', some again) ↦ some (l', if closed then stopped else read_error)
    ]

unfoldable pub run : List Turn → Listener → Option (Listener × Outcome)
unfolding run_loop buffer_size
run turns l = do buf_len ← buffer_size l.cfg; run_loop turns buf_len l
