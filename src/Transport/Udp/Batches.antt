-- ===== src/Transport/Udp/Batches.antt =====
-- What becomes of the datagrams of a batch, and of the turns of Run.
use aerocast.Prelude.{
  ℕ, zero, suc, ◌+◌, ◌-◌, ◌*◌, ◌/◌, ◌%◌, ◌^◌, ◌≤◌, ◌<◌, ◌≡◌, ◌∙◌, refl, List, [], ◌∷◌, length, none,
  some, ltb, if◌then◌else◌, arith, Bool-cases, inl, inr, drop, All, length-append, length-take,
  length-drop,
}
use native.Mathlib.Nat.{mul-le-mul_right, mul-div-le}
use aerocast.Prelude.Int.{pos}
use aerocast.Binary.LittleEndian.{slice}
use aerocast.Transport.Udp.{
  Listener, IngressPacket, process_packet, messages, slots_loop, slice_of, read_and_process_batch,
  slot_size_of,
}
use aerocast.Transport.Udp.Packets.{arrived, process_packet_lengths}

-- The listener's channel holds no more than its buffer, and its packets have the size of a coordinate
-- packet at least.
pub record IsBounded (l : Listener) : Type 0 where
  pub within : length l.out ≤ l.capacity
  pub size : l.cfg.packet_size ≡ pos 16

-- Of packets of these lengths, how many are long enough.
abbrev pub long_enough : List ℕ → ℕ
long_enough [] = 0
long_enough (n ∷ lens) = (if ltb n 16 then 0 else 1) + long_enough lens

-- What a listener has done with n packets: they wait or were dropped, and nothing else changed.
pub record Took (l : Listener) (n : ℕ) (l' : Listener) : Type 0 where
  pub bounded : IsBounded l'
  pub cfg : l'.cfg ≡ l.cfg
  pub capacity : l'.capacity ≡ l.capacity
  pub counted :
      (length l'.out + l'.dropped_packets) % 2 ^ 64
      ≡ (length l.out + l.dropped_packets + n) % 2 ^ 64

arrived-Took : (l : Listener) (ip : IngressPacket) → IsBounded l → Took l 1 (arrived l ip)
arrived-Took l ip b = elim (Bool-cases (ltb (length l.out) l.capacity)) [
  | inl room ↦ rw room (record {
    bounded = record {
      within = ground (arith, room, length-append l.out (ip ∷ []));
      size = b.size;
    };
    cfg = refl;
    capacity = refl;
    counted = omega (arith, length-append l.out (ip ∷ []));
  })
  | inr full ↦ rw full (record {
    bounded = record { within = b.within; size = b.size };
    cfg = refl;
    capacity = refl;
    counted = omega arith;
  })
]

pub unchanged-Took : (l : Listener) → IsBounded l → Took l 0 l
unchanged-Took l b = record { bounded = b; cfg = refl; capacity = refl; counted = omega arith }

process_packet-Took :
    (l : Listener) (bytes : List ℕ) (now : ℕ)
    → IsBounded l
    → Took l (if ltb (length bytes) 16 then 0 else 1) (process_packet l bytes now).0
process_packet-Took l bytes now b = elim (Bool-cases (ltb (length bytes) 16)) [
  | inl short ↦ rw (process_packet_lengths l bytes now b.size) (rw short (unchanged-Took l b))
  | inr long ↦ elim (Bool-cases (ltb (length bytes) 20)) [
    | inl anonymous ↦
        rw (process_packet_lengths l bytes now b.size) (rw (long, anonymous) (arrived-Took l _ b))
    | inr named ↦
        rw (process_packet_lengths l bytes now b.size) (rw (long, named) (arrived-Took l _ b))
  ]
]

pub Took-both :
    (l l1 l2 : Listener) (m n k : ℕ) → Took l m l1 → Took l1 n l2 → m + n ≡ k → Took l k l2
Took-both l l1 l2 m n k x y e = record {
  bounded = y.bounded;
  cfg = y.cfg ∙ x.cfg;
  capacity = y.capacity ∙ x.capacity;
  counted = omega (arith, x.counted, y.counted);
}

-- The messages fit into their slots, and the slots into the buffer.
abbrev Fit : ℕ → List ℕ → ℕ → ℕ → Type 0
Fit slot_size lens i total = All (λ n. n ≤ slot_size) lens × ((i + length lens) * slot_size ≤ total)

next_slot :
    (i k slot_size total : ℕ) → (i + suc k) * slot_size ≤ total → (i + 1 + k) * slot_size ≤ total
next_slot i k slot_size total h = omega arith

slot-slice_of :
    (i k slot_size n : ℕ) (buf : List ℕ)
    → n ≤ slot_size
    → (i + suc k) * slot_size ≤ length buf
    → (bytes : List ℕ) × (slice_of (i * slot_size) (i * slot_size + n) buf ≡ some bytes)
      × (length bytes ≡ n)
unfolding slice_of
slot-slice_of i k slot_size n buf h fit = (
  slice (i * slot_size) (i * slot_size + n) buf,
  ground arith,
  omega (
    arith,
    length-take (i * slot_size + n - i * slot_size) (drop (i * slot_size) buf),
    length-drop (i * slot_size) buf,
  ),
)

slots_loop-Took :
    (lens : List ℕ) (i slot_size : ℕ) (buf : List ℕ) (now : ℕ) (l : Listener)
    → IsBounded l
    → Fit slot_size lens i (length buf)
    → (l' : Listener) × (slots_loop lens i slot_size buf now l ≡ some l')
      × Took l (long_enough lens) l'
unfolding slots_loop
slots_loop-Took [] i slot_size buf now l b fit = (l, refl, unchanged-Took l b)
slots_loop-Took (zero ∷ lens) i slot_size buf now l b fit =
    let (l', run, rest) =
      slots_loop-Took lens (i + 1) slot_size buf now l b
        (fit.0.1, next_slot i (length lens) slot_size (length buf) fit.1) in
    (
      l',
      run,
      Took-both l l l' 0 (long_enough lens) (0 + long_enough lens) (unchanged-Took l b) rest refl,
    )
slots_loop-Took (suc n ∷ lens) i slot_size buf now l b fit =
    let (bytes, cut, len) = slot-slice_of i (length lens) slot_size (suc n) buf fit.0.0 fit.1 in
    let first = process_packet-Took l bytes now b in
    let (l', run, rest) =
      slots_loop-Took lens (i + 1) slot_size buf now (process_packet l bytes now).0 first.bounded
        (fit.0.1, next_slot i (length lens) slot_size (length buf) fit.1) in
    (
      l',
      rw cut run,
      Took-both l (process_packet l bytes now).0 l' (if ltb (length bytes) 16 then 0 else 1)
          (long_enough lens) (long_enough (suc n ∷ lens)) first rest (rw len),
    )

batch_lem :
    (l l' : Listener) (k buf_len : ℕ) (buf lens : List ℕ) (now : ℕ)
    → l.cfg.batch_size ≡ pos (suc k)
    → 0 < buf_len
    → slots_loop lens 0 (buf_len / suc k) buf now l ≡ some l'
    → read_and_process_batch l buf_len (messages buf lens) now ≡ some (l', none)
unfolding read_and_process_batch slot_size_of
batch_lem l l' k buf_len buf lens now size some_room run = ground (arith, size, some_room, run)

-- A batch of the Linux listener, into a buffer that is not empty. Where the kernel keeps to the buffer it was given (it fills the same
-- bytes, at most one message for each slot, none longer than its slot), the batch never panics. Every message
-- of 16 bytes or more waits in the channel afterwards or is counted as dropped, exactly once; shorter ones leave no
-- trace; and the channel stays within its buffer.
pub read_and_process_batch-Took :
    (l : Listener) (k buf_len : ℕ) (buf lens : List ℕ) (now : ℕ)
    → IsBounded l
    → l.cfg.batch_size ≡ pos (suc k)
    → 0 < buf_len
    → length buf ≡ buf_len
    → length lens ≤ suc k
    → All (λ n. n ≤ buf_len / suc k) lens
    → (l' : Listener) × (read_and_process_batch l buf_len (messages buf lens) now ≡ some (l', none))
      × Took l (long_enough lens) l'
read_and_process_batch-Took l k buf_len buf lens now b size some_room same few short =
    let (l', run, took) = slots_loop-Took lens 0 (buf_len / suc k) buf now l b (short, room) in
    (l', batch_lem l l' k buf_len buf lens now size some_room run, took)
  where
    room : (0 + length lens) * (buf_len / suc k) ≤ length buf
    room = omega (arith, mul-le-mul_right (buf_len / suc k) few, mul-div-le buf_len (suc k))
