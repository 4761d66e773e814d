-- ===== src/Engine/Lifecycle/Started.antt =====
-- What the goroutines keep in step holds where Run starts them.
use aerocast.Prelude.{
  ℕ, zero, suc, ◌+◌, ◌*◌, ◌≤◌, ◌≡◌, ◌∙◌, refl, ap, true, List, [], ◌∷◌, ◌++◌, length, Option, none,
  some, replicate, arith, inl, inr, Option-cases, Bool-cases, length-append, length-replicate,
}
use aerocast.Prelude.Int.{ℤ, pos, ◌*ℤ◌, ◌+ℤ◌}
use aerocast.Transport.Udp
use aerocast.Transport.Udp.{Listener, make_len, buffer_size, slot_size_of}
use aerocast.Engine.Assembly.{Assembly, launch, ticks}
use aerocast.Engine.Lifecycle.{
  Goroutine, worker_start, tick_start, start, start_udp, start_ws, is_some, buffers, slots,
}
use aerocast.Engine.Lifecycle.Moves.{active, held, sends, total}
use aerocast.Engine.Lifecycle.Kept.{IsKept}

total-append :
    (f : Goroutine → ℕ) (xs ys : List Goroutine) → total f (xs ++ ys) ≡ total f xs + total f ys
total-append f [] ys = omega arith
total-append f (x ∷ xs) ys = omega (arith, total-append f xs ys)

total-replicate : (f : Goroutine → ℕ) (n : ℕ) (g : Goroutine) → total f (replicate n g) ≡ f g * n
total-replicate f zero g = omega arith
total-replicate f (suc n) g = omega (arith, total-replicate f n g)

-- The goroutines behind the listener.
middle_total :
    (f : Goroutine → ℕ) (n : ℕ) (rest : List Goroutine)
    → total f (replicate n worker_start ++ (tick_start ∷ rest))
      ≡ f worker_start * n + (f tick_start + total f rest)
middle_total f n rest =
    total-append f (replicate n worker_start) (tick_start ∷ rest)
    ∙ ap (λ k. k + (f tick_start + total f rest)) (total-replicate f n worker_start)

middle_length :
    (n : ℕ) (rest : List Goroutine)
    → length (replicate n worker_start ++ (tick_start ∷ rest)) ≡ n + suc (length rest)
middle_length n rest =
    length-append (replicate n worker_start) (tick_start ∷ rest)
    ∙ ap (λ k. k + suc (length rest)) (length-replicate n worker_start)

start_ws_totals :
    {A : Type 0} (ws : Option A)
    → (total active (start_ws ws) ≡ length (start_ws ws))
      × (total held (start_ws ws) ≡ 0)
      × (total sends (start_ws ws) ≡ 0)
unfolding start_ws
start_ws_totals none = (refl, refl, refl)
start_ws_totals (some s) = (refl, refl, refl)

launch-ticks :
    {E : Type 0} (a : Assembly E) (workers : ℕ)
    → launch a ≡ some workers
    → ticks a.cfg.tick_rate ≡ true
unfolding launch
launch-ticks a workers h = elim (Bool-cases (ticks a.cfg.tick_rate)) [
  | inl t ↦ t
  | inr t ↦ absurd (ground (arith, t, h))
]

-- The listener, if there is one, has a positive batch size and room for a packet.
abbrev pub Reads : Option Listener → Type 0
Reads none = Unit {0}
Reads (some l) = (k m : ℕ) × (l.cfg.batch_size ≡ pos (suc k)) × (l.cfg.packet_size ≡ pos m)

add_pos : (a b : ℕ) → pos a +ℤ pos b ≡ pos (a + b)
unfolding ◌+ℤ◌
add_pos a b = ground arith

mul_pos : (a b : ℕ) → pos a *ℤ pos b ≡ pos (a * b)
unfolding ◌*ℤ◌
mul_pos a b = ground arith

buffer_size-pos :
    (cfg : Udp.Config) (k m : ℕ)
    → cfg.batch_size ≡ pos (suc k)
    → cfg.packet_size ≡ pos m
    → buffer_size cfg ≡ some (suc k * (m + 28))
unfolding buffer_size make_len
buffer_size-pos cfg k m size packet =
    rw (size, packet) (rw (add_pos m 28) (rw (mul_pos (suc k) (m + 28)) refl))

has_slot : (size : ℤ) (n k : ℕ) → size ≡ pos (suc k) → 1 ≤ n → is_some (slot_size_of size n) ≡ true
unfolding is_some slot_size_of
has_slot size n k e h = ground (arith, e, h)

some_product : (k m : ℕ) → 1 ≤ suc k * (m + 28)
some_product k m = omega arith

Reads-buffers : (udp : Option Listener) → Reads udp → (buffers udp ≡ true) × (slots udp ≡ true)
unfolding buffers slots is_some
Reads-buffers none r = (refl, refl)
Reads-buffers (some l) (k, m, size, packet) =
    let room = buffer_size-pos l.cfg k m size packet in
    (
      rw room refl,
      rw (room, slots) (has_slot l.cfg.batch_size (suc k * (m + 28)) k size (some_product k m)),
    )

pub start-IsKept :
    {E : Type 0} (a : Assembly E) (workers : ℕ)
    → launch a ≡ some workers
    → Reads a.udp
    → IsKept (start a workers)
unfolding start start_udp is_some
start-IsKept a workers launched reads =
    let (all, no_held, no_sends) = start_ws_totals a.ws in
    let actives = middle_total active workers (start_ws a.ws) in
    let helds = middle_total held workers (start_ws a.ws) in
    let sending = middle_total sends workers (start_ws a.ws) in
    let len = middle_length workers (start_ws a.ws) in
    elim (Option-cases a.udp) [
      | inl h ↦ record {
        wg = ground (arith, h, actives, len, all);
        listener_wg = ground (arith, h, helds, no_held);
        sending = ground (arith, h, sending, no_sends);
        caller = refl;
        set_up = (
          launch-ticks a workers launched,
          (Reads-buffers a.udp reads).0,
          (Reads-buffers a.udp reads).1,
        );
      }
      | inr (l, h) ↦ record {
        wg = ground (arith, h, actives, len, all);
        listener_wg = ground (arith, h, helds, no_held);
        sending = ground (arith, h, sending, no_sends);
        caller = refl;
        set_up = (
          launch-ticks a workers launched,
          (Reads-buffers a.udp reads).0,
          (Reads-buffers a.udp reads).1,
        );
      }
    ]
