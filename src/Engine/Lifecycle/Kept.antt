-- ===== src/Engine/Lifecycle/Kept.antt =====
-- What every step of the engine's goroutines keeps.
use aerocast.Prelude.{
  ℕ, ◌+◌, ◌≡◌, ◌≢◌, ◌∙◌, sym, ap, true, false, List, some, get_elem?, set, if◌then◌else◌, arith,
}
use aerocast.Engine.Lifecycle.{
  Goroutine, over, Shared, Caller, awaiting, closing, waiting_listener, waiting, returned, canceled,
  System,
}
use aerocast.Engine.Lifecycle.Moves.{
  active, held, sends, closed, total, total_set, total_at, Moves, SetUp,
}

-- What Run relies on where it stands.
abbrev pub CallerFits : Shared → Caller → Type 0
CallerFits s awaiting = s.done_closed ≡ false
CallerFits s closing = (s.done_closed ≡ false) × (s.cancelled ≡ true)
CallerFits s waiting_listener = s.cancelled ≡ true
CallerFits s waiting = s.cancelled ≡ true
CallerFits s (returned err) = (s.cancelled ≡ true) × (s.wg ≡ 0) × (err ≡ some canceled)

-- The wait groups count the goroutines, and of a listener exactly one can send to the channel or close
-- it until it is closed, and none after that. The configuration allows the ticker and the batches.
pub record IsKept (x : System) : Type 0 where
  pub wg : x.shared.wg ≡ total active x.routines
  pub listener_wg : x.shared.listener_wg ≡ total held x.routines
  pub sending : closed x.shared + total sends x.routines ≡ (if x.shared.has_udp then 1 else 0)
  pub caller : CallerFits x.shared x.caller
  pub set_up : SetUp x.shared

pub active_busy : (g : Goroutine) → g ≢ over → active g ≡ 1
active_busy g busy = ground (arith, busy)

-- A goroutine's step, from a kept system.
pub resumes-IsKept :
    (s s' : Shared) (c : Caller) (rs : List Goroutine) (i : ℕ) (g g' : Goroutine)
    → get_elem? rs i ≡ some g
    → g ≢ over
    → Moves s s' g g'
    → IsKept (record { shared = s; caller = c; routines = rs })
    → IsKept (record { shared = s'; caller = c; routines = set rs i g' })
resumes-IsKept s s' c rs i g g' at_i busy m k = record {
  wg = omega (arith, m.wg, k.wg, total_set active rs i g g' at_i);
  listener_wg = omega (arith, m.listener_wg, k.listener_wg, total_set held rs i g g' at_i);
  sending =
      omega (arith, m.sending, total_set sends rs i g g' at_i)
      ∙ k.sending
      ∙ ap (λ u. if u then 1 else 0) (sym m.has_udp);
  caller = caller_still c k.caller;
  set_up =
      let (t, u, l) = k.set_up in
      (
        ap (λ x. x.can_tick) m.setup ∙ t,
        ap (λ x. x.can_buffer) m.setup ∙ u,
        ap (λ x. x.can_slot) m.setup ∙ l,
      );
}
  where
    caller_still : (c : Caller) → CallerFits s c → CallerFits s' c
    caller_still awaiting f = m.done_closed ∙ f
    caller_still closing (f, h) = (m.done_closed ∙ f, m.cancelled ∙ h)
    caller_still waiting_listener f = m.cancelled ∙ f
    caller_still waiting f = m.cancelled ∙ f
    caller_still (returned err) (f, none_left, e) =
        absurd (omega (arith, none_left, k.wg, total_at active rs i g at_i, active_busy g busy))
