-- ===== src/Engine/Lifecycle/Returned.antt =====
-- Once the context is cancelled, Run can return.
use aerocast.Prelude.{
  ℕ, zero, suc, ◌≤◌, ◌≡◌, ◌∙◌, refl, ap, true, false, List, [], ◌∷◌, some, arith, inl, inr,
  Bool-cases,
}
use aerocast.Engine.Assembly.{Assembly, launch}
use aerocast.Engine.Lifecycle.{
  Goroutine, Shared, Caller, awaiting, closing, waiting_listener, waiting, returned, goes, canceled,
  close_done, wait_for, context_error, resume_caller, System, calls, Runs, done, more, start,
}
use aerocast.Engine.Lifecycle.Moves.{active, held, total}
use aerocast.Engine.Lifecycle.Kept.{CallerFits}
use aerocast.Engine.Lifecycle.Started.{Reads, start-IsKept}
use aerocast.Engine.Lifecycle.Safe.{Runs-IsKept}
use aerocast.Engine.Lifecycle.Ends.{left, routines_end, Runs-trans}

-- Run behind the end of all goroutines.
call :
    (x y : System) (s' : Shared) (c' : Caller)
    → resume_caller x.shared x.caller ≡ goes (s', c')
    → Runs (record { shared = s'; caller = c'; routines = x.routines }) y
    → Runs x y
call x y s' c' run rest =
    more x (record { shared = s'; caller = c'; routines = x.routines }) y
      (calls x.shared s' x.caller c' x.routines run) rest

wait_none : (n : ℕ) (s : Shared) (c : Caller) → n ≡ 0 → wait_for n s c ≡ goes (s, c)
unfolding wait_for
wait_none zero s c h = refl
wait_none (suc n) s c h = absurd (omega (arith, h))

held-active : (rs : List Goroutine) → total held rs ≤ total active rs
held-active [] = omega arith
held-active (g ∷ rs) = omega (arith, held-active rs, one g)
  where
    one : (g : Goroutine) → held g ≤ active g
    one g = ground arith

module _ (rs : List Goroutine) where
  abbrev at_caller : Shared → Caller → System
  at_caller s c = record { shared = s; caller = c; routines = rs }

  from_waiting :
      (s : Shared)
      → s.wg ≡ 0
      → (y : System) × Runs (at_caller s waiting) y
        × (y.caller ≡ returned (context_error s.cancelled))
  unfolding resume_caller
  from_waiting s none_left =
      let y = at_caller s (returned (context_error s.cancelled)) in
      (
        y,
        call (at_caller s waiting) y s (returned (context_error s.cancelled))
            (wait_none s.wg s (returned (context_error s.cancelled)) none_left) (done y),
        refl,
      )

  from_listener :
      (s : Shared)
      → s.wg ≡ 0
      → s.listener_wg ≡ 0
      → (y : System) × Runs (at_caller s waiting_listener) y
        × (y.caller ≡ returned (context_error s.cancelled))
  unfolding resume_caller
  from_listener s none_left free =
      let (y, runs, end) = from_waiting s none_left in
      (
        y,
        call (at_caller s waiting_listener) y s waiting (wait_none s.listener_wg s waiting free)
            runs,
        end,
      )

  from_closing :
      (s : Shared)
      → s.wg ≡ 0
      → s.listener_wg ≡ 0
      → s.done_closed ≡ false
      → (y : System) × Runs (at_caller s closing) y
        × (y.caller ≡ returned (context_error s.cancelled))
  unfolding resume_caller close_done
  from_closing s none_left free opened =
      let s' : Shared = record s { done_closed = true } in
      let (y, runs, end) = from_listener s' none_left free in
      (y, call (at_caller s closing) y s' waiting_listener (rw opened refl) runs, end)

  caller_returns :
      (s : Shared) (c : Caller)
      → s.wg ≡ 0
      → s.listener_wg ≡ 0
      → s.cancelled ≡ true
      → CallerFits s c
      → (y : System) × Runs (at_caller s c) y × (y.caller ≡ returned (some canceled))
  unfolding resume_caller context_error
  caller_returns s awaiting none_left free cancelled fits = elim (Bool-cases s.has_udp) [
    | inl h ↦
        let (y, runs, end) = from_closing s none_left free fits in
        (
          y,
          call (at_caller s awaiting) y s closing (ground (arith, cancelled, h)) runs,
          end ∙ ap (λ c. returned (context_error c)) cancelled,
        )
    | inr h ↦
        let (y, runs, end) = from_waiting s none_left in
        (
          y,
          call (at_caller s awaiting) y s waiting (ground (arith, cancelled, h)) runs,
          end ∙ ap (λ c. returned (context_error c)) cancelled,
        )
  ]
  caller_returns s closing none_left free cancelled (fits, c) =
      let (y, runs, end) = from_closing s none_left free fits in
      (y, runs, end ∙ ap (λ c. returned (context_error c)) cancelled)
  caller_returns s waiting_listener none_left free cancelled fits =
      let (y, runs, end) = from_listener s none_left free in
      (y, runs, end ∙ ap (λ c. returned (context_error c)) cancelled)
  caller_returns s waiting none_left free cancelled fits =
      let (y, runs, end) = from_waiting s none_left in
      (y, runs, end ∙ ap (λ c. returned (context_error c)) cancelled)
  caller_returns s (returned err) none_left free cancelled (c, z, e) =
      (at_caller s (returned err), done (at_caller s (returned err)), ap returned e)

-- With a positive tick rate, the workers that the configuration asks for, and a listener, if any, whose batch
-- size is positive and whose packet size is not negative: whatever the goroutines have done since Run started
-- them, if none has panicked, once the context is cancelled there is a way on to the return of Run with the
-- error of the context. On it no packet or tick panics, reads come back and Shutdown ends.
pub run_returns :
    {E : Type 0} (a : Assembly E) (workers : ℕ) (x : System)
    → launch a ≡ some workers
    → Reads a.udp
    → Runs (start a workers) x
    → x.shared.cancelled ≡ true
    → (y : System) × Runs x y × (y.caller ≡ returned (some canceled))
run_returns a workers x launched reads runs c =
    let k = Runs-IsKept (start a workers) x runs (start-IsKept a workers launched reads) in
    let (y, ends, k', c', all) = routines_end (total left x.routines) x (omega arith) k c in
    let (z, returns, end) =
      caller_returns y.routines y.shared y.caller (k'.wg ∙ all)
        (k'.listener_wg ∙ omega (arith, held-active y.routines, all)) c' k'.caller in
    (z, Runs-trans x y z ends returns, end)
