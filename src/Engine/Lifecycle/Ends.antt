-- ===== src/Engine/Lifecycle/Ends.antt =====
-- Once the context is cancelled, every goroutine can end.
use aerocast.Prelude.{
  ℕ, zero, suc, ◌≤◌, ◌≡◌, ◌≢◌, ◌⊎◌, ◌∙◌, refl, subst, Bool, true, false, List, [], ◌∷◌, some,
  get_elem?, set, if◌then◌else◌, ◌==◌, arith, inl, inr, Bool-cases,
}
use aerocast.Engine.Lifecycle.{
  Goroutine, udp_start, udp_check, udp_read, udp_close_conn, udp_close_out, udp_done, worker_start,
  worker_select, worker_process, tick_start, tick_select, tick_run, ws_select, ws_shutdown, leaving,
  over, Shared, Branch, context, proceed, crash, Result, blocked, panics, goes, when, engine_done,
  listener_done, send_batch, close_out, make_buffer, read_batch, make_ticker, work, resume, System,
  Step, resumes, Runs, done, more,
}
use aerocast.Engine.Lifecycle.Moves.{active, total, total_set, total_at, Fine}
use aerocast.Engine.Lifecycle.Kept.{IsKept}
use aerocast.Engine.Lifecycle.Safe.{kept-Fine, Step-IsKept}

-- The steps that a goroutine has left at most when it takes the branch of ctx.Done.
abbrev pub left : Goroutine → ℕ
left udp_start = 6
left udp_check = 5
left udp_read = 6
left udp_close_conn = 4
left udp_close_out = 3
left udp_done = 2
left worker_start = 3
left worker_select = 2
left worker_process = 3
left tick_start = 3
left tick_select = 2
left tick_run = 3
left ws_select = 3
left ws_shutdown = 2
left leaving = 1
left over = 0

-- That branch; a read comes back empty, and a packet or a tick ends.
abbrev branch_of : Goroutine → Branch
branch_of udp_read = proceed 0
branch_of g = context

-- A result that brings a goroutine nearer to its end.
abbrev Nearer : Shared → Goroutine → Result (Shared × Goroutine) → Type 0
Nearer s g blocked = ⊥
Nearer s g panics = Unit {0}
Nearer s g (goes (s', g')) = (suc (left g') ≤ left g) × (s'.cancelled ≡ s.cancelled)

make_buffer-Nearer : (c : Bool) (s : Shared) → Nearer s udp_start (make_buffer c s)
unfolding make_buffer
make_buffer-Nearer true s = (omega arith, refl)
make_buffer-Nearer false s = tt

read_batch-Nearer : (c : Bool) (s : Shared) → Nearer s udp_read (read_batch c 0 s)
unfolding read_batch send_batch
read_batch-Nearer true s = (omega arith, refl)
read_batch-Nearer false s = tt

make_ticker-Nearer : (c : Bool) (s : Shared) → Nearer s tick_start (make_ticker c s)
unfolding make_ticker
make_ticker-Nearer true s = (omega arith, refl)
make_ticker-Nearer false s = tt

engine_done-Nearer : (n : ℕ) (s : Shared) → Nearer s leaving (engine_done n s)
unfolding engine_done
engine_done-Nearer zero s = tt
engine_done-Nearer (suc n) s = (omega arith, refl)

listener_done-Nearer : (n : ℕ) (s : Shared) → Nearer s udp_done (listener_done n s)
unfolding listener_done
listener_done-Nearer zero s = tt
listener_done-Nearer (suc n) s = (omega arith, refl)

close_out-Nearer : (c : Bool) (s : Shared) → Nearer s udp_close_out (close_out c s)
unfolding close_out
close_out-Nearer true s = tt
close_out-Nearer false s = (omega arith, refl)

when-Nearer :
    (c : Bool) (s : Shared) (g g' : Goroutine)
    → c ≡ true
    → suc (left g') ≤ left g
    → Nearer s g (when c s g')
unfolding when
when-Nearer true s g g' h less = (less, refl)
when-Nearer false s g g' h less = ground (arith, h)

chosen-left :
    (c : Bool) (n : ℕ) (x y : Goroutine)
    → (c ≡ true → suc (left x) ≤ n)
    → (c ≡ false → suc (left y) ≤ n)
    → suc (left (if c then x else y)) ≤ n
chosen-left true n x y h k = h refl
chosen-left false n x y h k = k refl

-- Nothing holds a goroutine up once the context is cancelled.
resume-Nearer :
    (s : Shared) (g : Goroutine)
    → s.cancelled ≡ true
    → g ≢ over
    → Nearer s g (resume s (branch_of g) g)
unfolding resume work
resume-Nearer s udp_start c busy = make_buffer-Nearer s.setup.can_buffer s
resume-Nearer s udp_check c busy = (
  chosen-left s.cancelled 5 udp_close_conn udp_read (λ h. omega arith) (λ h. ground (arith, c, h)),
  refl,
)
resume-Nearer s udp_read c busy = read_batch-Nearer s.setup.can_slot s
resume-Nearer s udp_close_conn c busy = (omega arith, refl)
resume-Nearer s udp_close_out c busy = close_out-Nearer s.out_closed s
resume-Nearer s udp_done c busy = listener_done-Nearer s.listener_wg s
resume-Nearer s worker_start c busy =
    (chosen-left s.has_udp 3 worker_select leaving (λ h. omega arith) (λ h. omega arith), refl)
resume-Nearer s worker_select c busy =
    when-Nearer s.cancelled s worker_select leaving c (omega arith)
resume-Nearer s worker_process c busy = (omega arith, refl)
resume-Nearer s tick_start c busy = make_ticker-Nearer s.setup.can_tick s
resume-Nearer s tick_select c busy = when-Nearer s.cancelled s tick_select leaving c (omega arith)
resume-Nearer s tick_run c busy = (omega arith, refl)
resume-Nearer s ws_select c busy = when-Nearer s.cancelled s ws_select ws_shutdown c (omega arith)
resume-Nearer s ws_shutdown c busy = (omega arith, refl)
resume-Nearer s leaving c busy = engine_done-Nearer s.wg s
resume-Nearer s over c busy = absurd (busy refl)

Result_cases :
    {A : Type 0} (r : Result A) → (r ≡ blocked) ⊎ ((r ≡ panics) ⊎ ((a : A) × (r ≡ goes a)))
Result_cases blocked = inl refl
Result_cases panics = inr (inl refl)
Result_cases (goes a) = inr (inr (a, refl))

-- A goroutine that is not over, if there is one.
find_active :
    (rs : List Goroutine)
    → (total active rs ≡ 0) ⊎ ((i : ℕ) × (g : Goroutine) × (get_elem? rs i ≡ some g) × (g ≢ over))
find_active [] = inl refl
find_active (g ∷ rs) = elim (active_cases g) [
  | inl is_over ↦ elim (find_active rs) [
    | inl none_left ↦ inl (ground (arith, is_over, none_left))
    | inr (i, h, at_i, busy) ↦ inr (suc i, h, at_i, busy)
  ]
  | inr busy ↦ inr (0, g, refl, busy)
]
  where
    active_cases : (g : Goroutine) → (active g ≡ 0) ⊎ (g ≢ over)
    active_cases g = elim (Bool-cases (active g == 0)) [
      | inl h ↦ inl (ground (arith, h))
      | inr h ↦ inr (λ e. ground (arith, h, e))
    ]

pub Runs-trans : (x y z : System) → Runs x y → Runs y z → Runs x z
Runs-trans _ _ z (done x) rest = rest
Runs-trans _ _ z (more x x1 y step runs) rest = more x x1 z step (Runs-trans x1 y z runs rest)

not_crash : (g : Goroutine) → branch_of g ≢ crash
not_crash g h = ground (arith, h)

-- One step of a goroutine of a cancelled system.
near_step :
    (x : System) (i : ℕ) (g : Goroutine)
    → IsKept x
    → x.shared.cancelled ≡ true
    → get_elem? x.routines i ≡ some g
    → g ≢ over
    → (s' : Shared) × (g' : Goroutine) × (resume x.shared (branch_of g) g ≡ goes (s', g'))
      × (suc (left g') ≤ left g)
      × (s'.cancelled ≡ true)
near_step x i g k c at_i busy =
    let near = resume-Nearer x.shared g c busy in
    let fine = kept-Fine x.shared x.caller x.routines i g (branch_of g) at_i k in
    elim (Result_cases (resume x.shared (branch_of g) g)) [
      | inl h ↦ absurd (subst (Nearer x.shared g) h near)
      | inr (inl h) ↦ absurd (not_crash g (subst (Fine x.shared (branch_of g) g) h fine).0)
      | inr (inr ((s', g'), h)) ↦
          let (less, same) = subst (Nearer x.shared g) h near in (s', g', h, less, same ∙ c)
    ]

-- All goroutines of a cancelled system can end.
pub routines_end :
    (n : ℕ) (x : System)
    → total left x.routines ≤ n
    → IsKept x
    → x.shared.cancelled ≡ true
    → (y : System) × Runs x y
      × IsKept y
      × (y.shared.cancelled ≡ true)
      × (total active y.routines ≡ 0)
routines_end zero x few k c = elim (find_active x.routines) [
  | inl none_left ↦ (x, done x, k, c, none_left)
  | inr (i, g, at_i, busy) ↦
      let (s', g', run, less, c') = near_step x i g k c at_i busy in
      absurd (omega (arith, few, less, total_at left x.routines i g at_i))
]
routines_end (suc n) x few k c = elim (find_active x.routines) [
  | inl none_left ↦ (x, done x, k, c, none_left)
  | inr (i, g, at_i, busy) ↦
      let (s', g', run, less, c') = near_step x i g k c at_i busy in
      let y : System = record { shared = s'; caller = x.caller; routines = set x.routines i g' } in
      let step : Step x y = resumes x.shared s' x.caller x.routines i g g' (branch_of g) at_i run in
      let (z, runs, k', c'', all) =
        routines_end n y (omega (arith, few, less, total_set left x.routines i g g' at_i))
          (Step-IsKept x y step k) c' in
      (z, more x y z step runs, k', c'', all)
]
