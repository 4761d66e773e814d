-- ===== src/Engine/Lifecycle/Moves.antt =====
-- What one step of a goroutine changes of the state that all of them share.
use aerocast.Prelude.{
  ℕ, zero, suc, ◌+◌, ◌≤◌, ◌≡◌, ◌⊎◌, inl, inr, refl, Bool, true, false, List, [], ◌∷◌, some,
  get_elem?, set, if◌then◌else◌, arith,
}
use aerocast.Engine.Lifecycle.{
  Goroutine, udp_start, udp_check, udp_read, udp_close_conn, udp_close_out, udp_done, worker_start,
  worker_select, worker_process, tick_start, tick_select, tick_run, ws_select, ws_shutdown, leaving,
  over, Shared, Branch, context, proceed, fail, crash, Result, blocked, panics, goes, when,
  engine_done, listener_done, receive, send_batch, close_out, resume, make_buffer, read_batch,
  make_ticker, work,
}

-- Whether the engine's wait group counts a goroutine, whether the listener's does, and whether it may
-- still send to the channel or close it.
abbrev pub active : Goroutine → ℕ
active over = 0
active g = 1

abbrev pub held : Goroutine → ℕ
held udp_check = 1
held udp_read = 1
held udp_close_conn = 1
held udp_close_out = 1
held udp_done = 1
held g = 0

abbrev pub sends : Goroutine → ℕ
sends udp_start = 1
sends udp_check = 1
sends udp_read = 1
sends udp_close_conn = 1
sends udp_close_out = 1
sends g = 0

abbrev pub closed : Shared → ℕ
closed s = if s.out_closed then 1 else 0

abbrev pub total : (Goroutine → ℕ) → List Goroutine → ℕ
total f [] = 0
total f (g ∷ rs) = f g + total f rs

pub total_set :
    (f : Goroutine → ℕ) (rs : List Goroutine) (i : ℕ) (g g' : Goroutine)
    → get_elem? rs i ≡ some g
    → total f (set rs i g') + f g ≡ total f rs + f g'
total_set f [] i g g' h = absurd (ground (arith, h))
total_set f (x ∷ rs) zero g g' h = ground (arith, h)
total_set f (x ∷ rs) (suc i) g g' h = omega (arith, total_set f rs i g g' h)

pub total_at :
    (f : Goroutine → ℕ) (rs : List Goroutine) (i : ℕ) (g : Goroutine)
    → get_elem? rs i ≡ some g
    → f g ≤ total f rs
total_at f [] i g h = absurd (ground (arith, h))
total_at f (x ∷ rs) zero g h = ground (arith, h)
total_at f (x ∷ rs) (suc i) g h = omega (arith, total_at f rs i g h)

-- What a goroutine changes of the shared state.
pub record Moves (s s' : Shared) (g g' : Goroutine) : Type 0 where
  pub wg : s'.wg + active g ≡ s.wg + active g'
  pub listener_wg : s'.listener_wg + held g ≡ s.listener_wg + held g'
  pub sending : closed s' + sends g' ≡ closed s + sends g
  pub cancelled : s'.cancelled ≡ s.cancelled
  pub done_closed : s'.done_closed ≡ s.done_closed
  pub has_udp : s'.has_udp ≡ s.has_udp
  pub setup : s'.setup ≡ s.setup

-- A panic in what a worker does with a packet or the tick loop with a tick.
abbrev pub AtWork : Branch → Goroutine → Type 0
AtWork b g = (b ≡ crash) × ((g ≡ worker_process) ⊎ (g ≡ tick_run))

-- Nothing else panics, and each step keeps the accounts.
abbrev pub Fine : Shared → Branch → Goroutine → Result (Shared × Goroutine) → Type 0
Fine s b g blocked = Unit {0}
Fine s b g panics = AtWork b g
Fine s b g (goes (s', g')) = Moves s s' g g'

stays :
    (s : Shared) (g g' : Goroutine)
    → active g ≡ active g'
    → held g ≡ held g'
    → sends g ≡ sends g'
    → Moves s s g g'
stays s g g' a h o = record {
  wg = omega (arith, a);
  listener_wg = omega (arith, h);
  sending = omega (arith, o);
  cancelled = refl;
  done_closed = refl;
  has_udp = refl;
  setup = refl;
}

when-Fine :
    (c : Bool) (s : Shared) (b : Branch) (g g' : Goroutine)
    → active g ≡ active g'
    → held g ≡ held g'
    → sends g ≡ sends g'
    → Fine s b g (when c s g')
unfolding when
when-Fine true s b g g' a h o = stays s g g' a h o
when-Fine false s b g g' a h o = tt

engine_done-Fine :
    (n : ℕ) (s : Shared) (b : Branch) → n ≡ s.wg → 1 ≤ n → Fine s b leaving (engine_done n s)
unfolding engine_done
engine_done-Fine zero s b e a = absurd (omega (arith, a))
engine_done-Fine (suc n) s b e a = record {
  wg = omega (arith, e);
  listener_wg = refl;
  sending = refl;
  cancelled = refl;
  done_closed = refl;
  has_udp = refl;
  setup = refl;
}

listener_done-Fine :
    (n : ℕ) (s : Shared) (b : Branch)
    → n ≡ s.listener_wg
    → 1 ≤ n
    → Fine s b udp_done (listener_done n s)
unfolding listener_done
listener_done-Fine zero s b e a = absurd (omega (arith, a))
listener_done-Fine (suc n) s b e a = record {
  wg = refl;
  listener_wg = omega (arith, e);
  sending = refl;
  cancelled = refl;
  done_closed = refl;
  has_udp = refl;
  setup = refl;
}

receive-Fine : (n : ℕ) (c : Bool) (s : Shared) (b : Branch) → Fine s b worker_select (receive n c s)
unfolding receive
receive-Fine (suc n) c s b = record {
  wg = refl;
  listener_wg = refl;
  sending = refl;
  cancelled = refl;
  done_closed = refl;
  has_udp = refl;
  setup = refl;
}
receive-Fine zero true s b = stays s worker_select leaving refl refl refl
receive-Fine zero false s b = tt

send_batch-Fine :
    (n : ℕ) (c : Bool) (s : Shared) (b : Branch)
    → c ≡ s.out_closed
    → closed s + 1 ≤ 1
    → Fine s b udp_read (send_batch n c s)
unfolding send_batch
send_batch-Fine zero c s b e o = stays s udp_read udp_check refl refl refl
send_batch-Fine (suc n) true s b e o = absurd (ground (arith, e, o))
send_batch-Fine (suc n) false s b e o = record {
  wg = refl;
  listener_wg = refl;
  sending = refl;
  cancelled = refl;
  done_closed = refl;
  has_udp = refl;
  setup = refl;
}

close_out-Fine :
    (c : Bool) (s : Shared) (b : Branch)
    → c ≡ s.out_closed
    → closed s + 1 ≤ 1
    → Fine s b udp_close_out (close_out c s)
unfolding close_out
close_out-Fine true s b e o = absurd (ground (arith, e, o))
close_out-Fine false s b e o = record {
  wg = refl;
  listener_wg = refl;
  sending = ground (arith, e);
  cancelled = refl;
  done_closed = refl;
  has_udp = refl;
  setup = refl;
}

chosen :
    (c : Bool) (s : Shared) (g x y : Goroutine)
    → Moves s s g x
    → Moves s s g y
    → Moves s s g (if c then x else y)
chosen true s g x y left right = left
chosen false s g x y left right = right

-- What a configuration must allow.
abbrev pub SetUp : Shared → Type 0
SetUp s = (s.setup.can_tick ≡ true) × (s.setup.can_buffer ≡ true) × (s.setup.can_slot ≡ true)

make_buffer-Fine :
    (c : Bool) (s : Shared) (b : Branch) → c ≡ true → Fine s b udp_start (make_buffer c s)
unfolding make_buffer
make_buffer-Fine true s b e = record {
  wg = refl;
  listener_wg = omega arith;
  sending = refl;
  cancelled = refl;
  done_closed = refl;
  has_udp = refl;
  setup = refl;
}
make_buffer-Fine false s b e = absurd (ground (arith, e))

read_batch-Fine :
    (c : Bool) (n : ℕ) (s : Shared) (b : Branch)
    → c ≡ true
    → closed s + 1 ≤ 1
    → Fine s b udp_read (read_batch c n s)
unfolding read_batch
read_batch-Fine true n s b e o = send_batch-Fine n s.out_closed s b refl o
read_batch-Fine false n s b e o = absurd (ground (arith, e))

make_ticker-Fine :
    (c : Bool) (s : Shared) (b : Branch) → c ≡ true → Fine s b tick_start (make_ticker c s)
unfolding make_ticker
make_ticker-Fine true s b e = stays s tick_start tick_select refl refl refl
make_ticker-Fine false s b e = absurd (ground (arith, e))

work-Fine :
    (s : Shared) (b : Branch) (g g' : Goroutine)
    → (g ≡ worker_process) ⊎ (g ≡ tick_run)
    → Moves s s g g'
    → Fine s b g (work s b g')
unfolding work
work-Fine s crash g g' at m = (refl, at)
work-Fine s context g g' at m = m
work-Fine s (proceed n) g g' at m = m
work-Fine s fail g g' at m = m

-- A goroutine panics at its work only, and each keeps the accounts.
pub resume-Fine :
    (s : Shared) (b : Branch) (g : Goroutine)
    → active g ≤ s.wg
    → held g ≤ s.listener_wg
    → closed s + sends g ≤ 1
    → SetUp s
    → Fine s b g (resume s b g)
unfolding resume
resume-Fine s b udp_start a h o (t, u, k) = make_buffer-Fine s.setup.can_buffer s b u
resume-Fine s b udp_check a h o k =
    chosen s.cancelled s udp_check udp_close_conn udp_read
      (stays s udp_check udp_close_conn refl refl refl) (stays s udp_check udp_read refl refl refl)
resume-Fine s context udp_read a h o k = tt
resume-Fine s (proceed n) udp_read a h o (t, u, k) =
    read_batch-Fine s.setup.can_slot n s (proceed n) k o
resume-Fine s fail udp_read a h o k = stays s udp_read udp_close_conn refl refl refl
resume-Fine s crash udp_read a h o k = tt
resume-Fine s b udp_close_conn a h o k = stays s udp_close_conn udp_close_out refl refl refl
resume-Fine s b udp_close_out a h o k = close_out-Fine s.out_closed s b refl o
resume-Fine s b udp_done a h o k = listener_done-Fine s.listener_wg s b refl h
resume-Fine s b worker_start a h o k =
    chosen s.has_udp s worker_start worker_select leaving
      (stays s worker_start worker_select refl refl refl)
      (stays s worker_start leaving refl refl refl)
resume-Fine s context worker_select a h o k =
    when-Fine s.cancelled s context worker_select leaving refl refl refl
resume-Fine s (proceed n) worker_select a h o k = receive-Fine s.packets s.out_closed s (proceed n)
resume-Fine s fail worker_select a h o k = tt
resume-Fine s crash worker_select a h o k = tt
resume-Fine s b worker_process a h o k =
    work-Fine s b worker_process worker_select (inl refl)
      (stays s worker_process worker_select refl refl refl)
resume-Fine s b tick_start a h o (t, u, k) = make_ticker-Fine s.setup.can_tick s b t
resume-Fine s context tick_select a h o k =
    when-Fine s.cancelled s context tick_select leaving refl refl refl
resume-Fine s (proceed n) tick_select a h o k = stays s tick_select tick_run refl refl refl
resume-Fine s fail tick_select a h o k = tt
resume-Fine s crash tick_select a h o k = tt
resume-Fine s b tick_run a h o k =
    work-Fine s b tick_run tick_select (inr refl) (stays s tick_run tick_select refl refl refl)
resume-Fine s context ws_select a h o k =
    when-Fine s.cancelled s context ws_select ws_shutdown refl refl refl
resume-Fine s (proceed n) ws_select a h o k = tt
resume-Fine s fail ws_select a h o k = stays s ws_select leaving refl refl refl
resume-Fine s crash ws_select a h o k = tt
resume-Fine s b ws_shutdown a h o k = stays s ws_shutdown leaving refl refl refl
resume-Fine s b leaving a h o k = engine_done-Fine s.wg s b refl a
resume-Fine s b over a h o k = tt
