-- ===== src/Engine/Lifecycle.antt =====
-- pkg/engine/engine.go: Run from the start of its goroutines to its return, with Run and Close of
-- pkg/transport/udp/listener.go, the loops of pkg/engine/pipeline.go and Run of pkg/transport/ws/ws.go,
-- as far as they start, wait and end. What they do with a packet, a tick or a connection is elsewhere; here
-- it ends or panics. The listener is that of Linux, whose kernel keeps to its buffer.
pub mod Moves
pub mod Kept
pub mod Started
pub mod Safe
pub mod Ends
pub mod Returned
mod Tests
use aerocast.Prelude.{
  ℕ, zero, suc, ◌+◌, ◌-◌, ◌≡◌, Bool, true, false, List, [], ◌∷◌, ◌++◌, length, Option, none, some,
  replicate, get_elem?, set, if◌then◌else◌,
}
use aerocast.Prelude.Int.{ℤ}
use aerocast.Transport.Udp.{Listener, buffer_size, slot_size_of}
use aerocast.Transport.Ws.{Server}
use aerocast.Engine.Assembly.{Assembly, ticks}

-- Where a goroutine stands. `leaving` has returned but for the deferred wg.Done of the engine.
pub data Goroutine : Type 0 where
  udp_start udp_check udp_read udp_close_conn udp_close_out udp_done : Goroutine
  worker_start worker_select worker_process : Goroutine
  tick_start tick_select tick_run : Goroutine
  ws_select ws_shutdown : Goroutine
  leaving over : Goroutine

-- What the configuration allows: the ticker, the listener's buffer, and the slots of a batch in it.
pub record Setup : Type 0 where
  pub can_tick : Bool
  pub can_buffer : Bool
  pub can_slot : Bool

-- What the goroutines share: the configuration, ctx, the channel of packets, l.done and the two wait groups.
pub record Shared : Type 0 where
  pub setup : Setup
  pub has_udp : Bool
  pub cancelled : Bool
  pub packets : ℕ
  pub out_closed : Bool
  pub done_closed : Bool
  pub listener_wg : ℕ
  pub wg : ℕ

-- ctx.Err() of a cancelled context; it is nil before.
pub data ContextError : Type 0 where
  canceled : ContextError

-- Run itself.
pub data Caller : Type 0 where
  awaiting closing waiting_listener waiting : Caller
  returned : Option ContextError → Caller

-- The branch that a select takes, or what the world answers: so many packets of a batch, or an error. `crash`
-- is a panic in what a worker does with a packet, its callbacks included, or the tick loop with a tick, which
-- sends to a channel that a disconnect may just have closed.
pub data Branch : Type 0 where
  context : Branch
  proceed : ℕ → Branch
  fail : Branch
  crash : Branch

pub data Result (A : Type 0) : Type 0 where
  blocked : Result A
  panics : Result A
  goes : A → Result A

-- A select that has only this branch ready, or whose branch is chosen.
when : Bool → Shared → Goroutine → Result (Shared × Goroutine)
when true s g = goes (s, g)
when false s g = blocked

-- sync.WaitGroup.Done panics when the counter would be negative.
engine_done : ℕ → Shared → Result (Shared × Goroutine)
engine_done zero s = panics
engine_done (suc n) s = goes (record s { wg = n }, over)

listener_done : ℕ → Shared → Result (Shared × Goroutine)
listener_done zero s = panics
listener_done (suc n) s = goes (record s { listener_wg = n }, leaving)

-- A receive: a packet, the closed and empty channel, or nothing yet.
receive : ℕ → Bool → Shared → Result (Shared × Goroutine)
receive (suc n) closed s = goes (record s { packets = n }, worker_process)
receive zero true s = goes (s, leaving)
receive zero false s = blocked

-- Sends on a closed channel panic.
send_batch : ℕ → Bool → Shared → Result (Shared × Goroutine)
send_batch zero closed s = goes (s, udp_check)
send_batch (suc n) true s = panics
send_batch (suc n) false s = goes (record s { packets = s.packets + suc n }, udp_check)

close_out : Bool → Shared → Result (Shared × Goroutine)
close_out true s = panics
close_out false s = goes (record s { out_closed = true }, udp_done)

-- make panics on a negative size.
make_buffer : Bool → Shared → Result (Shared × Goroutine)
make_buffer true s = goes (record s { listener_wg = s.listener_wg + 1 }, udp_check)
make_buffer false s = panics

-- Without slots a batch panics before its read.
read_batch : Bool → ℕ → Shared → Result (Shared × Goroutine)
unfolding send_batch
read_batch true n s = send_batch n s.out_closed s
read_batch false n s = panics

-- time.NewTicker panics on a rate that is not positive.
make_ticker : Bool → Shared → Result (Shared × Goroutine)
make_ticker true s = goes (s, tick_select)
make_ticker false s = panics

-- What is done with a packet or a tick, and where the goroutine is then.
work : Shared → Branch → Goroutine → Result (Shared × Goroutine)
work s crash next = panics
work s context next = goes (s, next)
work s (proceed n) next = goes (s, next)
work s fail next = goes (s, next)

-- One read of the listener, and what it makes of its answer.
read_udp : Shared → Branch → Result (Shared × Goroutine)
unfolding read_batch
read_udp s context = blocked
read_udp s (proceed n) = read_batch s.setup.can_slot n s
read_udp s fail = goes (s, udp_close_conn)
read_udp s crash = blocked

-- The selects of a worker, of the tick loop and of the server.
select_worker : Shared → Branch → Result (Shared × Goroutine)
unfolding when receive
select_worker s context = when s.cancelled s leaving
select_worker s (proceed n) = receive s.packets s.out_closed s
select_worker s fail = blocked
select_worker s crash = blocked

select_tick : Shared → Branch → Result (Shared × Goroutine)
unfolding when
select_tick s context = when s.cancelled s leaving
select_tick s (proceed n) = goes (s, tick_run)
select_tick s fail = blocked
select_tick s crash = blocked

select_ws : Shared → Branch → Result (Shared × Goroutine)
unfolding when
select_ws s context = when s.cancelled s ws_shutdown
select_ws s (proceed n) = blocked
select_ws s fail = goes (s, leaving)
select_ws s crash = blocked

-- What a goroutine does next on a branch.
unfoldable pub resume : Shared → Branch → Goroutine → Result (Shared × Goroutine)
unfolding read_udp select_worker select_tick select_ws engine_done listener_done close_out
    make_buffer make_ticker work
resume s b udp_start = make_buffer s.setup.can_buffer s
resume s b udp_check = goes (s, if s.cancelled then udp_close_conn else udp_read)
resume s b udp_read = read_udp s b
resume s b udp_close_conn = goes (s, udp_close_out)
resume s b udp_close_out = close_out s.out_closed s
resume s b udp_done = listener_done s.listener_wg s
resume s b worker_start = goes (s, if s.has_udp then worker_select else leaving)
resume s b worker_select = select_worker s b
resume s b worker_process = work s b worker_select
resume s b tick_start = make_ticker s.setup.can_tick s
resume s b tick_select = select_tick s b
resume s b tick_run = work s b tick_select
resume s b ws_select = select_ws s b
resume s b ws_shutdown = goes (s, leaving)
resume s b leaving = engine_done s.wg s
resume s b over = blocked

-- Run behind the start of its goroutines.
close_done : Bool → Shared → Result (Shared × Caller)
close_done true s = panics
close_done false s = goes (record s { done_closed = true }, waiting_listener)

wait_for : ℕ → Shared → Caller → Result (Shared × Caller)
wait_for zero s c = goes (s, c)
wait_for (suc n) s c = blocked

unfoldable pub context_error : Bool → Option ContextError
context_error true = some canceled
context_error false = none

unfoldable pub resume_caller : Shared → Caller → Result (Shared × Caller)
unfolding close_done wait_for context_error
resume_caller s awaiting =
    if s.cancelled then goes (s, if s.has_udp then closing else waiting) else blocked
resume_caller s closing = close_done s.done_closed s
resume_caller s waiting_listener = wait_for s.listener_wg s waiting
resume_caller s waiting = wait_for s.wg s (returned (context_error s.cancelled))
resume_caller s (returned err) = blocked

pub record System : Type 0 where
  pub shared : Shared
  pub caller : Caller
  pub routines : List Goroutine

is_some : {A : Type 0} → Option A → Bool
is_some none = false
is_some (some a) = true

start_udp : {A : Type 0} → Option A → List Goroutine
start_udp none = []
start_udp (some l) = udp_start ∷ []

start_ws : {A : Type 0} → Option A → List Goroutine
start_ws none = []
start_ws (some s) = ws_select ∷ []

buffers : Option Listener → Bool
unfolding is_some
buffers none = true
buffers (some l) = is_some (buffer_size l.cfg)

slots : Option Listener → Bool
unfolding is_some slot_size_of
slots none = true
slots (some l) = elim (buffer_size l.cfg) [
  | none ↦ false
  | some n ↦ is_some (slot_size_of l.cfg.batch_size n)
]

-- What Run starts, with so many workers.
unfoldable pub start : {E : Type 0} → Assembly E → ℕ → System
unfolding is_some start_udp start_ws buffers slots ticks
start a workers =
    let routines : List Goroutine =
      start_udp a.udp ++ (replicate workers worker_start ++ (tick_start ∷ start_ws a.ws)) in
    record {
      shared = record {
        setup = record {
          can_tick = ticks a.cfg.tick_rate;
          can_buffer = buffers a.udp;
          can_slot = slots a.udp;
        };
        has_udp = is_some a.udp;
        cancelled = false;
        packets = 0;
        out_closed = false;
        done_closed = false;
        listener_wg = 0;
        wg = length routines;
      };
      caller = awaiting;
      routines = routines;
    }

-- The context is cancelled, Run goes on, or one of the goroutines does.
pub data Step : System → System → Type 0 where
  cancels :
      (s : Shared) (c : Caller) (rs : List Goroutine)
      → Step
          (record { shared = s; caller = c; routines = rs })
          (record { shared = record s { cancelled = true }; caller = c; routines = rs })
  calls :
      (s s' : Shared) (c c' : Caller) (rs : List Goroutine)
      → resume_caller s c ≡ goes (s', c')
      → Step
          (record { shared = s; caller = c; routines = rs })
          (record { shared = s'; caller = c'; routines = rs })
  resumes :
      (s s' : Shared) (c : Caller) (rs : List Goroutine) (i : ℕ) (g g' : Goroutine) (b : Branch)
      → get_elem? rs i ≡ some g
      → resume s b g ≡ goes (s', g')
      → Step
          (record { shared = s; caller = c; routines = rs })
          (record { shared = s'; caller = c; routines = set rs i g' })

pub data Runs : System → System → Type 0 where
  done : (s : System) → Runs s s
  more : (s s' s'' : System) → Step s s' → Runs s' s'' → Runs s s''
