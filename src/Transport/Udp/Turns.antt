-- ===== src/Transport/Udp/Turns.antt =====
-- A whole run of the listener: how it ends, and what becomes of every datagram.
use aerocast.Prelude.{
  ℕ, suc, ◌+◌, ◌*◌, ◌/◌, ◌≤◌, ◌<◌, ◌≡◌, ◌∙◌, refl, ap, List, [], ◌∷◌, length, none, some,
  if◌then◌else◌, arith, All,
}
use aerocast.Prelude.Int.{pos, ◌*ℤ◌, ◌+ℤ◌}
use aerocast.Transport.Udp.{
  Listener, messages, failed, again, timeout, other, Turn, cancelled, answered, Outcome,
  context_error, stopped, read_error, waiting, run_loop, run, read_and_process_batch, buffer_size,
  slot_size_of, errno_of,
}
use aerocast.Transport.Udp.Batches.{
  IsBounded, Took, Took-both, unchanged-Took, long_enough, read_and_process_batch-Took,
}

-- The kernel fills the buffer it was given, with one message at most in each slot, none longer than that.
abbrev pub IsHonest : ℕ → ℕ → Turn → Type 0
IsHonest k buf_len cancelled = Unit {0}
IsHonest k buf_len (answered (failed e) now closed) = Unit {0}
IsHonest k buf_len (answered (messages buf lens) now closed) =
    (length buf ≡ buf_len) × (length lens ≤ suc k) × All (λ n. n ≤ buf_len / suc k) lens

-- The datagrams of 16 bytes or more that come before the run ends, and how it ends: at the first turn
-- that finds the context done or has an error other than a timeout.
abbrev pub datagrams : List Turn → ℕ
datagrams [] = 0
datagrams (cancelled ∷ turns) = 0
datagrams (answered (messages buf lens) now closed ∷ turns) = long_enough lens + datagrams turns
datagrams (answered (failed again) now closed ∷ turns) = datagrams turns
datagrams (answered (failed timeout) now closed ∷ turns) = datagrams turns
datagrams (answered (failed other) now closed ∷ turns) = 0

abbrev pub ending : List Turn → Outcome
ending [] = waiting
ending (cancelled ∷ turns) = context_error
ending (answered (messages buf lens) now closed ∷ turns) = ending turns
ending (answered (failed again) now closed ∷ turns) = ending turns
ending (answered (failed timeout) now closed ∷ turns) = ending turns
ending (answered (failed other) now closed ∷ turns) = if closed then stopped else read_error

module _ (k buf_len : ℕ) (some_room : 0 < buf_len) where
  abbrev Result : Listener → List Turn → Type 0
  Result l turns =
      (l' : Listener) × (run_loop turns buf_len l ≡ some (l', ending turns))
      × Took l (datagrams turns) l'

  idle :
      (l : Listener) (now : ℕ)
      → l.cfg.batch_size ≡ pos (suc k)
      → (read_and_process_batch l buf_len (failed again) now ≡ some (l, none))
        × (read_and_process_batch l buf_len (failed timeout) now ≡ some (l, some timeout))
        × (read_and_process_batch l buf_len (failed other) now ≡ some (l, some other))
  unfolding read_and_process_batch slot_size_of errno_of
  idle l now size = ground (arith, size, some_room)

  run_loop-Took :
      (turns : List Turn) (l : Listener)
      → IsBounded l
      → l.cfg.batch_size ≡ pos (suc k)
      → All (IsHonest k buf_len) turns
      → Result l turns
  unfolding run_loop
  run_loop-Took [] l b size honest = (l, refl, unchanged-Took l b)
  run_loop-Took (cancelled ∷ turns) l b size honest = (l, refl, unchanged-Took l b)
  run_loop-Took (answered (messages buf lens) now closed ∷ turns) l b size honest =
      let (l1, one, took) =
        read_and_process_batch-Took l k buf_len buf lens now b size some_room honest.0.0 honest.0.1
          honest.0.2 in
      let (l2, rest, took2) =
        run_loop-Took turns l1 took.bounded (ap (λ c. c.batch_size) took.cfg ∙ size) honest.1 in
      (
        l2,
        rw (one, run_loop) rest,
        Took-both l l1 l2 (long_enough lens) (datagrams turns) _ took took2 refl,
      )
  run_loop-Took (answered (failed again) now closed ∷ turns) l b size honest =
      let (l2, rest, took2) = run_loop-Took turns l b size honest.1 in
      (l2, rw ((idle l now size).0, run_loop) rest, took2)
  run_loop-Took (answered (failed timeout) now closed ∷ turns) l b size honest =
      let (l2, rest, took2) = run_loop-Took turns l b size honest.1 in
      (l2, rw ((idle l now size).1, run_loop) rest, took2)
  run_loop-Took (answered (failed other) now closed ∷ turns) l b size honest =
      (l, rw ((idle l now size).2, run_loop), unchanged-Took l b)

buffer_lem :
    (l : Listener) (k : ℕ)
    → l.cfg.batch_size ≡ pos (suc k)
    → l.cfg.packet_size ≡ pos 16
    → buffer_size l.cfg ≡ some (suc k * 44)
unfolding buffer_size ◌*ℤ◌ ◌+ℤ◌
buffer_lem l k size packet = ground (arith, size, packet)

-- Run with a positive batch size never panics, as long as the kernel keeps to its buffer. It ends at the first
-- turn that finds the context done, or that has an error other than EAGAIN or a timeout, with nil if Close has been
-- called by then and with an error if not. Every datagram of 16 bytes or more that comes before waits in the
-- channel or is counted as dropped, exactly once, and the channel stays within its buffer.
pub run-Took :
    (turns : List Turn) (l : Listener) (k : ℕ)
    → IsBounded l
    → l.cfg.batch_size ≡ pos (suc k)
    → All (IsHonest k (suc k * 44)) turns
    → (l' : Listener) × (run turns l ≡ some (l', ending turns)) × Took l (datagrams turns) l'
unfolding run
run-Took turns l k b size honest =
    let (l', go, took) = run_loop-Took k (suc k * 44) (omega arith) turns l b size honest in
    (l', rw (buffer_lem l k size b.size) go, took)
