-- ===== src/Geofence/Evaluate/Called.antt =====
-- Which callbacks EvaluateMove calls (pkg/geofence/evaluate.go), in terms of the calls of OnEvent.
use Prim.Native.String.{String}
use text.Mathlib.Text.{◌==◌ as str_eq}
use text.Mathlib.TextEquality.{eq_iff}
use aerocast.Prelude.{
  ℕ, ◌≡◌, ◌∙◌, refl, sym, ap, true, false, List, [], ◌∷◌, ◌++◌, Option, none, some, if◌then◌else◌,
  inl, inr, Bool-cases, append_assoc, append-nil,
}
use aerocast.Binary.Codec.{CoordPacket}
use aerocast.Float.{Platform}
use aerocast.Geofence.Fence.{Fence}
use aerocast.Geofence.Store.{new_store, register_all}
use aerocast.Geofence.Evaluate.{
  FenceEvent, Evaluator, add_callback, find_callbacks, call_all, call_global, on_event,
  fire_callbacks, evaluate_move,
}
use aerocast.Geofence.Evaluate.Events.{expected, evaluate_move-expected}

module _ {E : Type 0} where
  -- Calls of OnEvent, one after the other.
  abbrev pub on_events : Evaluator E → List (String × (FenceEvent → List E)) → Evaluator E
  on_events e [] = e
  on_events e ((n, fn) ∷ regs) = on_events (on_event e n fn) regs

  -- What the registered functions do with an event: those under its fence's name, in the order of
  -- registration.
  abbrev pub called : List (String × (FenceEvent → List E)) → FenceEvent → List E
  called [] ev = []
  called ((n, fn) ∷ regs) ev =
      if str_eq n ev.fence_name then fn ev ++ called regs ev else called regs ev

  -- For each event, in order, the global function and then the registered ones.
  abbrev pub called_all :
      Option (FenceEvent → List E)
      → List (String × (FenceEvent → List E))
      → List FenceEvent
      → List E
  called_all global regs [] = []
  called_all none regs (ev ∷ evs) = called regs ev ++ called_all none regs evs
  called_all (some fn) regs (ev ∷ evs) = (fn ev ++ called regs ev) ++ called_all (some fn) regs evs

  call_all-append :
      (fns gns : List (FenceEvent → List E)) (ev : FenceEvent)
      → call_all (fns ++ gns) ev ≡ call_all fns ev ++ call_all gns ev
  unfolding call_all
  call_all-append [] gns ev = refl
  call_all-append (fn ∷ fns) gns ev =
      ap (λ t. fn ev ++ t) (call_all-append fns gns ev)
      ∙ sym (append_assoc (fn ev) (call_all fns ev) (call_all gns ev))

  -- One more call of OnEvent.
  find-add :
      (n m : String) (fn : FenceEvent → List E) (ev : FenceEvent)
      (cbs : List (String × List (FenceEvent → List E)))
      → call_all (find_callbacks m (add_callback n fn cbs)) ev
        ≡ call_all (find_callbacks m cbs) ev ++ (if str_eq n m then fn ev else [])
  unfolding call_all find_callbacks add_callback
  find-add n m fn ev [] = elim (Bool-cases (str_eq n m)) [
    | inl same ↦ rw same (append-nil (fn ev))
    | inr other ↦ rw other refl
  ]
  find-add n m fn ev ((k, fns) ∷ cbs) = elim (Bool-cases (str_eq k n)) [
    | inl at_n ↦
        let k_n = (eq_iff k n).0 at_n in
        elim (Bool-cases (str_eq k m)) [
          | inl at_m ↦
              rw (at_n, at_m)
                (call_all-append fns (fn ∷ []) ev
                  ∙ ap (λ t. call_all fns ev ++ t)
                      (append-nil (fn ev)
                        ∙ sym (
                            ap (λ b. if b then fn ev else [])
                              (sym (ap (λ t. str_eq t m) k_n) ∙ at_m))))
          | inr off_m ↦
              rw (at_n, off_m)
                (sym (
                  ap (λ b. call_all (find_callbacks m cbs) ev ++ (if b then fn ev else []))
                    (sym (ap (λ t. str_eq t m) k_n) ∙ off_m)
                  ∙ append-nil (call_all (find_callbacks m cbs) ev)))
        ]
    | inr off_n ↦ elim (Bool-cases (str_eq k m)) [
      | inl at_m ↦
          rw (off_n, at_m)
            (sym (
              ap (λ b. call_all fns ev ++ (if b then fn ev else [])) (differs at_m off_n)
              ∙ append-nil (call_all fns ev)))
      | inr off_m ↦ rw (off_n, off_m) (find-add n m fn ev cbs)
    ]
  ]
    where
      differs : str_eq k m ≡ true → str_eq k n ≡ false → str_eq n m ≡ false
      differs at_m off_n = elim (Bool-cases (str_eq n m)) [
        | inl same ↦
            absurd (cc ((eq_iff k n).1 ((eq_iff k m).0 at_m ∙ sym ((eq_iff n m).0 same)), off_n))
        | inr other ↦ other
      ]

  on_events-callbacks :
      (e : Evaluator E) (regs : List (String × (FenceEvent → List E))) (ev : FenceEvent)
      → call_all (find_callbacks ev.fence_name (on_events e regs).callbacks) ev
        ≡ call_all (find_callbacks ev.fence_name e.callbacks) ev ++ called regs ev
  unfolding on_event
  on_events-callbacks e [] ev =
      sym (append-nil (call_all (find_callbacks ev.fence_name e.callbacks) ev))
  on_events-callbacks e ((n, fn) ∷ regs) ev =
      on_events-callbacks (on_event e n fn) regs ev
      ∙ ap (λ t. t ++ called regs ev) (find-add n ev.fence_name fn ev e.callbacks)
      ∙ append_assoc (call_all (find_callbacks ev.fence_name e.callbacks) ev)
          (if str_eq n ev.fence_name then fn ev else []) (called regs ev)
      ∙ ap (λ t. call_all (find_callbacks ev.fence_name e.callbacks) ev ++ t)
          (chosen (str_eq n ev.fence_name))
    where
      chosen :
          (b : _)
          → (if b then fn ev else []) ++ called regs ev
            ≡ (if b then fn ev ++ called regs ev else called regs ev)
      chosen true = refl
      chosen false = refl

  on_events-global :
      (e : Evaluator E) (regs : List (String × (FenceEvent → List E)))
      → (on_events e regs).global_callback ≡ e.global_callback
  unfolding on_event
  on_events-global e [] = refl
  on_events-global e ((n, fn) ∷ regs) = on_events-global (on_event e n fn) regs

  -- A new evaluator with a global function.
  abbrev pub fresh : Option (FenceEvent → List E) → Evaluator E
  fresh global = record { callbacks = []; global_callback = global }

  fire_callbacks-called :
      (global : Option (FenceEvent → List E)) (regs : List (String × (FenceEvent → List E)))
      (evs : List FenceEvent)
      → fire_callbacks (on_events (fresh global) regs) evs ≡ called_all global regs evs
  unfolding fire_callbacks call_global find_callbacks call_all
  fire_callbacks-called none regs [] = refl
  fire_callbacks-called (some fn) regs [] = refl
  fire_callbacks-called none regs (ev ∷ evs) =
      rw (on_events-global (fresh none) regs, on_events-callbacks (fresh none) regs ev)
        (ap (λ t. called regs ev ++ t) (fire_callbacks-called none regs evs))
  fire_callbacks-called (some fn) regs (ev ∷ evs) =
      rw (on_events-global (fresh (some fn)) regs, on_events-callbacks (fresh (some fn)) regs ev)
        (ap (λ t. (fn ev ++ called regs ev) ++ t) (fire_callbacks-called (some fn) regs evs))

-- EvaluateMove over any registered fences, by an evaluator on which OnEvent has been called any number of
-- times: it never reads out of range; it reports one event for each fence that is filed under the cell of
-- the new position and whose boundary the move crossed, an enter from outside to inside and an exit from
-- inside to outside; and for each of these events, in order, it calls the global callback, if there is
-- one, and then every function that was registered under the fence's name, in the order of registration.
pub evaluate_move-called :
    {E : Type 0} (p : Platform) (global : Option (FenceEvent → List E))
    (regs : List (String × (FenceEvent → List E))) (fs : List Fence) (id : ℕ)
    (from : Option CoordPacket) (to : CoordPacket) (now : ℕ)
    → evaluate_move p (on_events (fresh global) regs) (register_all p new_store fs) id from to now
      ≡ some (expected p id from to now fs, called_all global regs (expected p id from to now fs))
evaluate_move-called p global regs fs id from to now =
    evaluate_move-expected p (on_events (fresh global) regs) fs id from to now
    ∙ ap (λ t. some (expected p id from to now fs, t))
        (fire_callbacks-called global regs (expected p id from to now fs))
