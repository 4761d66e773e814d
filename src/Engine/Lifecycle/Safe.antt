-- ===== src/Engine/Lifecycle/Safe.antt =====
-- The engine's goroutines from the start of Run on: what may panic, and what holds when Run returns.
use aerocast.Prelude.{
  ℕ, zero, suc, ◌+◌, ◌≤◌, ◌≡◌, ◌≢◌, ◌⊎◌, ◌∙◌, refl, sym, ap, subst, Bool, true, false, List, [],
  ◌∷◌, Option, some, get_elem?, if◌then◌else◌, arith,
}
use aerocast.Engine.Assembly.{Assembly, launch}
use aerocast.Engine.Lifecycle.{
  Goroutine, worker_process, tick_run, over, Shared, Caller, awaiting, closing, waiting_listener,
  waiting, returned, Branch, crash, Result, blocked, panics, goes, resume, ContextError, canceled,
  close_done, wait_for, context_error, resume_caller, System, Step, cancels, calls, resumes, Runs,
  done, more, start,
}
use aerocast.Engine.Lifecycle.Moves.{
  active, held, sends, closed, total, total_at, Fine, resume-Fine,
}
use aerocast.Engine.Lifecycle.Started.{Reads, start-IsKept}
use aerocast.Engine.Lifecycle.Kept.{CallerFits, IsKept, resumes-IsKept}

-- A step of Run changes l.done only.
abbrev CallerFine : Shared → Caller → Result (Shared × Caller) → Type 0
CallerFine s c blocked = Unit {0}
CallerFine s c panics = ⊥
CallerFine s c (goes (s', c')) =
    (s'.wg ≡ s.wg)
    × (s'.listener_wg ≡ s.listener_wg)
    × (s'.out_closed ≡ s.out_closed)
    × (s'.has_udp ≡ s.has_udp)
    × (s'.setup ≡ s.setup)
    × CallerFits s' c'

close_done-CallerFine :
    (d : Bool) (s : Shared) → d ≡ false → s.cancelled ≡ true → CallerFine s closing (close_done d s)
unfolding close_done
close_done-CallerFine true s h c = ground (arith, h)
close_done-CallerFine false s h c = (refl, refl, refl, refl, refl, c)

wait_for-CallerFine :
    (n : ℕ) (s : Shared) (c c' : Caller)
    → (n ≡ 0 → CallerFits s c')
    → CallerFine s c (wait_for n s c')
unfolding wait_for
wait_for-CallerFine zero s c c' fits = (refl, refl, refl, refl, refl, fits refl)
wait_for-CallerFine (suc n) s c c' fits = tt

woken-CallerFine :
    (c u : Bool) (s : Shared)
    → c ≡ s.cancelled
    → s.done_closed ≡ false
    → CallerFine s awaiting (if c then goes (s, if u then closing else waiting) else blocked)
woken-CallerFine true true s e h = (refl, refl, refl, refl, refl, (h, sym e))
woken-CallerFine true false s e h = (refl, refl, refl, refl, refl, sym e)
woken-CallerFine false u s e h = tt

resume_caller-CallerFine :
    (s : Shared) (c : Caller) → CallerFits s c → CallerFine s c (resume_caller s c)
unfolding resume_caller context_error
resume_caller-CallerFine s awaiting fits = woken-CallerFine s.cancelled s.has_udp s refl fits
resume_caller-CallerFine s closing (fits, c) = close_done-CallerFine s.done_closed s fits c
resume_caller-CallerFine s waiting_listener fits =
    wait_for-CallerFine s.listener_wg s waiting_listener waiting (λ z. fits)
resume_caller-CallerFine s waiting fits =
    wait_for-CallerFine s.wg s waiting (returned (context_error s.cancelled))
      (λ z. (fits, z, ap context_error fits))
resume_caller-CallerFine s (returned err) fits = tt

-- A goroutine of a kept system makes a step that is fine.
pub kept-Fine :
    (s : Shared) (c : Caller) (rs : List Goroutine) (i : ℕ) (g : Goroutine) (b : Branch)
    → get_elem? rs i ≡ some g
    → IsKept (record { shared = s; caller = c; routines = rs })
    → Fine s b g (resume s b g)
kept-Fine s c rs i g b at_i k =
    resume-Fine s b g (omega (arith, k.wg, total_at active rs i g at_i))
      (omega (arith, k.listener_wg, total_at held rs i g at_i))
      (at_most_one (total sends rs) (sends g) (closed s) s.has_udp (total_at sends rs i g at_i)
        k.sending)
      k.set_up
  where
    at_most_one : (m n o : ℕ) (u : Bool) → n ≤ m → o + m ≡ (if u then 1 else 0) → o + n ≤ 1
    at_most_one m n o true h e = omega (arith, h, e)
    at_most_one m n o false h e = omega (arith, h, e)

cancelled-CallerFits :
    (s : Shared) (c : Caller) → CallerFits s c → CallerFits (record s { cancelled = true }) c
cancelled-CallerFits s awaiting f = f
cancelled-CallerFits s closing (f, h) = (f, refl)
cancelled-CallerFits s waiting_listener f = refl
cancelled-CallerFits s waiting f = refl
cancelled-CallerFits s (returned err) (f, z, e) = (refl, z, e)

over_blocks :
    (s s' : Shared) (b : Branch) (g g' : Goroutine) → resume s b g ≡ goes (s', g') → g ≢ over
unfolding resume
over_blocks s s' b g g' h is_over = ground (arith, h, is_over)

pub Step-IsKept : (x y : System) → Step x y → IsKept x → IsKept y
Step-IsKept _ _ (cancels s c rs) k = record {
  wg = k.wg;
  listener_wg = k.listener_wg;
  sending = k.sending;
  caller = cancelled-CallerFits s c k.caller;
  set_up = k.set_up;
}
Step-IsKept _ _ (calls s s' c c' rs run) k =
    let (w, l, o, u, same, fits) =
      subst (CallerFine s c) run (resume_caller-CallerFine s c k.caller) in
    record {
      wg = w ∙ k.wg;
      listener_wg = l ∙ k.listener_wg;
      sending =
          ap (λ d. (if d then 1 else 0) + total sends rs) o
          ∙ k.sending
          ∙ ap (λ d. if d then 1 else 0) (sym u);
      caller = fits;
      set_up =
          subst (λ x. (x.can_tick ≡ true) × (x.can_buffer ≡ true) × (x.can_slot ≡ true)) (sym same)
            k.set_up;
    }
Step-IsKept _ _ (resumes s s' c rs i g g' b at_i run) k =
    resumes-IsKept s s' c rs i g g' at_i (over_blocks s s' b g g' run)
      (subst (Fine s b g) run (kept-Fine s c rs i g b at_i k)) k

pub Runs-IsKept : (x y : System) → Runs x y → IsKept x → IsKept y
Runs-IsKept _ _ (done x) k = k
Runs-IsKept _ _ (more x y z step rest) k = Runs-IsKept y z rest (Step-IsKept x y step k)

pub inactive_over : (g : Goroutine) → active g ≡ 0 → g ≡ over
inactive_over g h = ground (arith, h)

sends-active : (rs : List Goroutine) → total sends rs ≤ total active rs
sends-active [] = omega arith
sends-active (g ∷ rs) = omega (arith, sends-active rs, one g)
  where
    one : (g : Goroutine) → sends g ≤ active g
    one g = ground arith

same_flags : (c u : Bool) (n : ℕ) → (if c then 1 else 0) + n ≡ (if u then 1 else 0) → n ≡ 0 → c ≡ u
same_flags c u n h z = ground (arith, h, z)

-- With a positive tick rate, the workers that the configuration asks for, and a listener, if any, whose batch
-- size is positive and whose packet size is not negative: from the start of an engine's goroutines on, in any
-- order of their steps and with any answers of the world, no step panics but what a worker does with a packet
-- and the tick loop with a tick. So the listener sends no packet to a closed channel, and nothing of Run is
-- closed twice or counted below zero;
-- and once Run has returned, the context is cancelled, the error is that of the context and never nil,
-- every goroutine is over, and a listener's channel is closed.
pub run_safe :
    {E : Type 0} (a : Assembly E) (workers : ℕ) (x : System)
    → launch a ≡ some workers
    → Reads a.udp
    → Runs (start a workers) x
    → ((i : ℕ) (g : Goroutine) (b : Branch)
        → get_elem? x.routines i ≡ some g
        → resume x.shared b g ≡ panics
        → (b ≡ crash) × ((g ≡ worker_process) ⊎ (g ≡ tick_run)))
      × (resume_caller x.shared x.caller ≢ panics)
      × ((err : Option ContextError)
          → x.caller ≡ returned err
          → (x.shared.cancelled ≡ true)
            × (err ≡ some canceled)
            × ((i : ℕ) (g : Goroutine) → get_elem? x.routines i ≡ some g → g ≡ over)
            × (x.shared.out_closed ≡ x.shared.has_udp))
run_safe a workers x launched reads runs =
    let k = Runs-IsKept (start a workers) x runs (start-IsKept a workers launched reads) in
    (
      λ i g b at_i h.
          subst (Fine x.shared b g) h (kept-Fine x.shared x.caller x.routines i g b at_i k),
      λ h.
          subst (CallerFine x.shared x.caller) h
            (resume_caller-CallerFine x.shared x.caller k.caller),
      λ err h.
          let (cancelled, none_left, is_error) = subst (CallerFits x.shared) h k.caller in
          (
            cancelled,
            is_error,
            λ i g at_i.
                inactive_over g
                  (omega (arith, total_at active x.routines i g at_i, k.wg, none_left)),
            same_flags x.shared.out_closed x.shared.has_udp (total sends x.routines) k.sending
                (omega (arith, sends-active x.routines, k.wg, none_left)),
          ),
    )
