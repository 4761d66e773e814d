-- ===== src/Transport/Ws/Writer.antt =====
-- The write loop of a connection: what it writes, and that it ends once its channel is closed.
use aerocast.Prelude.{
  ℕ, ◌+◌, ◌%◌, ◌^◌, ◌≤◌, ◌<◌, ◌≡◌, ◌≢◌, ◌∙◌, refl, sym, ap, Bool, true, false, List, [], ◌∷◌, ◌++◌,
  length, arith, append_assoc, append-nil, ◌==◌, Bool-cases, ◌⊎◌, ==_iff, inl, inr,
}
use aerocast.Prelude.Array.{update}
use aerocast.Fanout.Channel.{Channel, ChannelManager}
use aerocast.Fanout.Channel.Laws.{IsWired}
use aerocast.Transport.Ws.{
  Server, Event, ping, ready, receive, frames_receipt, frame, ended, waits, write_rounds,
  count_bytes,
}

abbrev pub bytes_of : List (List ℕ) → ℕ
bytes_of [] = 0
bytes_of (f ∷ fs) = length f + bytes_of fs

-- What rounds of the loop have done: of the frames that waited, `sent` is written and counted, at most one
-- is lost with a write that failed, and `left` waits still.
pub record Written (ref : ℕ) (s : Server) (cm : ChannelManager) (out : List (List ℕ)) (s' : Server)
    (cm' : ChannelManager) (out' : List (List ℕ)) : Type 0 where
  pub sent : List (List ℕ)
  pub lost : List (List ℕ)
  pub written : out' ≡ out ++ sent
  pub in_order : (cm.heap ref).frames ≡ sent ++ (lost ++ (cm'.heap ref).frames)
  pub one_lost : length lost ≤ 1
  pub counted : s'.broadcast_bytes ≡ (s.broadcast_bytes + bytes_of sent) % 2 ^ 64
  pub server : s' ≡ record s { broadcast_bytes = s'.broadcast_bytes }
  pub closing : (cm'.heap ref).closed ≡ (cm.heap ref).closed
  pub others : (j : ℕ) → ref ≢ j → cm'.heap j ≡ cm.heap j
  pub map : cm'.chans ≡ cm.chans
  pub next : cm'.next_ref ≡ cm.next_ref

idle-Written :
    (ref : ℕ) (s : Server) (cm : ChannelManager) (out : List (List ℕ))
    → s.broadcast_bytes < 2 ^ 64
    → Written ref s cm out s cm out
idle-Written ref s cm out small = record {
  sent = [];
  lost = [];
  written = sym (append-nil out);
  in_order = refl;
  one_lost = omega arith;
  counted = omega (arith, small);
  server = refl;
  closing = refl;
  others = λ j ne. refl;
  map = refl;
  next = refl;
}

abbrev pub popped : ChannelManager → ℕ → List (List ℕ) → ChannelManager
popped cm ref fs = record cm {
  heap = update cm.heap ref (record { frames = fs; closed = (cm.heap ref).closed });
}

List_cases : {A : Type 0} (xs : List A) → (xs ≡ []) ⊎ ((x : A) × (rest : List A) × (xs ≡ x ∷ rest))
List_cases [] = inl refl
List_cases (x ∷ xs) = inr (x, xs, refl)

pub receive_cases :
    (cm : ChannelManager) (ref : ℕ)
    → ((f : List ℕ) × (fs : List (List ℕ)) × ((cm.heap ref).frames ≡ f ∷ fs)
        × (receive cm ref ≡ frame f (popped cm ref fs)))
      ⊎ (((cm.heap ref).frames ≡ []) × ((cm.heap ref).closed ≡ true) × (receive cm ref ≡ ended))
      ⊎ (((cm.heap ref).frames ≡ []) × ((cm.heap ref).closed ≡ false) × (receive cm ref ≡ waits))
unfolding receive frames_receipt
receive_cases cm ref = elim (List_cases (cm.heap ref).frames) [
  | inl empty ↦ elim (Bool-cases (cm.heap ref).closed) [
    | inl closed ↦ inr (inl (empty, closed, rw (empty, closed, frames_receipt)))
    | inr still ↦ inr (inr (empty, still, rw (empty, still, frames_receipt)))
  ]
  | inr (f, fs, waiting) ↦ inl (f, fs, waiting, rw (waiting, frames_receipt))
]

module _ (ref : ℕ) (s : Server) (cm : ChannelManager) (out : List (List ℕ)) (f : List ℕ)
    (fs : List (List ℕ)) (waiting : (cm.heap ref).frames ≡ f ∷ fs) where
  pub popped_at :
      (popped cm ref fs).heap ref ≡ record { frames = fs; closed = (cm.heap ref).closed }
  popped_at = ground arith

  popped_away : (j : ℕ) → ref ≢ j → (popped cm ref fs).heap j ≡ cm.heap j
  popped_away j ne = ground (arith, ne)

  Written-more :
      (s' : Server) (cm' : ChannelManager) (out' : List (List ℕ))
      → Written ref (count_bytes s f) (popped cm ref fs) (out ++ (f ∷ [])) s' cm' out'
      → Written ref s cm out s' cm' out'
  unfolding count_bytes
  Written-more s' cm' out' w = record {
    sent = f ∷ w.sent;
    lost = w.lost;
    written = w.written ∙ append_assoc out (f ∷ []) w.sent;
    in_order =
        waiting
        ∙ ap (λ tail. f ∷ tail) (sym (ap (λ (c : Channel). c.frames) popped_at) ∙ w.in_order);
    one_lost = w.one_lost;
    counted = omega (arith, w.counted);
    server = w.server;
    closing = w.closing ∙ ap (λ (c : Channel). c.closed) popped_at;
    others = λ j ne. w.others j ne ∙ popped_away j ne;
    map = w.map;
    next = w.next;
  }

  lost_one : s.broadcast_bytes < 2 ^ 64 → Written ref s cm out s (popped cm ref fs) out
  lost_one small = record {
    sent = [];
    lost = f ∷ [];
    written = sym (append-nil out);
    in_order = waiting ∙ ap (λ tail. f ∷ tail) (sym (ap (λ (c : Channel). c.frames) popped_at));
    one_lost = omega arith;
    counted = omega (arith, small);
    server = refl;
    closing = ap (λ (c : Channel). c.closed) popped_at;
    others = popped_away;
    map = refl;
    next = refl;
  }

-- However the rounds go, the loop writes the frames in the order in which they waited.
pub write_rounds-Written :
    (events : List Event) (ref : ℕ) (s : Server) (cm : ChannelManager) (out : List (List ℕ))
    → s.broadcast_bytes < 2 ^ 64
    → (s' : Server) × (cm' : ChannelManager) × (out' : List (List ℕ)) × (stopped : Bool)
      × (write_rounds events ref s cm out ≡ (s', cm', out', stopped))
      × Written ref s cm out s' cm' out'
unfolding write_rounds count_bytes
write_rounds-Written [] ref s cm out small =
    (s, cm, out, false, refl, idle-Written ref s cm out small)
write_rounds-Written (ping false ∷ events) ref s cm out small =
    (s, cm, out, true, refl, idle-Written ref s cm out small)
write_rounds-Written (ping true ∷ events) ref s cm out small =
    write_rounds-Written events ref s cm out small
write_rounds-Written (ready ok ∷ events) ref s cm out small = elim (receive_cases cm ref) [
  | inl (f, fs, waiting, got) ↦ elim (Bool-cases ok) [
    | inl succeeds ↦
        let (s2, cm2, out2, stopped, run, w) =
          write_rounds-Written events ref (count_bytes s f) (popped cm ref fs) (out ++ (f ∷ []))
            (omega arith) in
        (
          s2,
          cm2,
          out2,
          stopped,
          rw (got, succeeds, write_rounds) run,
          Written-more ref s cm out f fs waiting s2 cm2 out2 w,
        )
    | inr fails ↦ (
      s,
      popped cm ref fs,
      out,
      true,
      rw (got, fails, write_rounds),
      lost_one ref s cm out f fs waiting small,
    )
  ]
  | inr (inl (empty, closed, got)) ↦
      (s, cm, out, true, rw (got, write_rounds), idle-Written ref s cm out small)
  | inr (inr (empty, still, got)) ↦
      let (s2, cm2, out2, stopped, run, w) = write_rounds-Written events ref s cm out small in
      (s2, cm2, out2, stopped, rw (got, write_rounds) run, w)
]

-- The rounds of a loop leave the channels of the map open and apart.
pub Written-IsWired :
    (ref : ℕ) (s s' : Server) (cm cm' : ChannelManager) (out out' : List (List ℕ))
    → Written ref s cm out s' cm' out'
    → IsWired cm
    → IsWired cm'
Written-IsWired ref s s' cm cm' out out' t w = record {
  distinct = rw t.map w.distinct;
  live = λ id r h. elim (Bool-cases (ref == r)) [
    | inl same ↦
        ap (λ (c : Channel). c.closed) (sym (ap cm'.heap ((==_iff ref r).0 same)))
        ∙ t.closing
        ∙ ap (λ i. (cm.heap i).closed) ((==_iff ref r).0 same)
        ∙ w.live id r (rw t.map at h)
    | inr ne ↦
        ap (λ (c : Channel). c.closed) (t.others r (λ e. ground (arith, ne, e)))
        ∙ w.live id r (rw t.map at h)
  ];
  fresh = λ id r h. rw t.next (w.fresh id r (rw t.map at h));
  injective = λ i j r h k. w.injective i j r (rw t.map at h) (rw t.map at k);
}
