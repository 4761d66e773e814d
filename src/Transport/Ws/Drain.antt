-- ===== src/Transport/Ws/Drain.antt =====
-- A write loop whose channel is closed ends.
use aerocast.Prelude.{
  ℕ, suc, ◌+◌, ◌%◌, ◌^◌, ◌<◌, ◌≡◌, ◌∙◌, sym, ap, Bool, true, false, List, [], ◌∷◌, ◌++◌, length,
  some, arith, All, append_assoc, append-nil, inl, inr,
}
use aerocast.Fanout.Channel.{Channel, ChannelManager, get, remove}
use aerocast.Fanout.Channel.Laws.{IsWired, remove_closes}
use aerocast.Transport.Ws.{Server, Event, ping, ready, receive, ended, write_rounds, count_bytes}
use aerocast.Transport.Ws.Writer.{bytes_of, popped, popped_at, receive_cases}

-- The rounds in which the channel is tried, and whether every write succeeds.
abbrev pub tries : List Event → ℕ
tries [] = 0
tries (ping ok ∷ events) = tries events
tries (ready ok ∷ events) = suc (tries events)

abbrev pub Succeeds : Event → Type 0
Succeeds (ping ok) = ok ≡ true
Succeeds (ready ok) = ok ≡ true

-- With every write successful, the loop of a channel that is closed ends once it has had a round for each
-- frame and one more, and has written them all.
abbrev Drained : List Event → ℕ → Server → ChannelManager → List (List ℕ) → Type 0
Drained events ref s cm out =
    (cm' : ChannelManager) × (write_rounds events ref s cm out ≡ (
      record s { broadcast_bytes = (s.broadcast_bytes + bytes_of (cm.heap ref).frames) % 2 ^ 64 },
      cm',
      out ++ (cm.heap ref).frames,
      true,
    ))

same_end :
    (s : Server) (cm : ChannelManager) (n m : ℕ) (x y : List (List ℕ))
    → n ≡ m
    → x ≡ y
    → ◌≡◌ {A = Server × ChannelManager × List (List ℕ) × Bool}
        (record s { broadcast_bytes = n }, cm, x, true)
        (record s { broadcast_bytes = m }, cm, y, true)
same_end s cm n m x y h k = cc (h, k)

module _ (ref : ℕ) where
  last_round :
      (events : List Event) (s : Server) (cm : ChannelManager) (out : List (List ℕ))
      → s.broadcast_bytes < 2 ^ 64
      → (cm.heap ref).frames ≡ []
      → receive cm ref ≡ ended
      → Drained (ready true ∷ events) ref s cm out
  unfolding write_rounds
  last_round events s cm out small empty got = (
    cm,
    rw (got, write_rounds)
        (rw (empty, append-nil out)
          (ap (λ n. (record s { broadcast_bytes = n }, cm, out, true)) (omega (arith, small)))),
  )

  write_rounds_ends :
      (events : List Event) (s : Server) (cm : ChannelManager) (out : List (List ℕ))
      → s.broadcast_bytes < 2 ^ 64
      → (cm.heap ref).closed ≡ true
      → All Succeeds events
      → length (cm.heap ref).frames < tries events
      → Drained events ref s cm out
  unfolding write_rounds count_bytes
  write_rounds_ends [] s cm out small closed ok enough = absurd (omega (arith, enough))
  write_rounds_ends (ping false ∷ events) s cm out small closed ok enough = absurd (cc ok.0)
  write_rounds_ends (ready false ∷ events) s cm out small closed ok enough = absurd (cc ok.0)
  write_rounds_ends (ping true ∷ events) s cm out small closed ok enough =
      write_rounds_ends events s cm out small closed ok.1 enough
  write_rounds_ends (ready true ∷ events) s cm out small closed ok enough =
      elim (receive_cases cm ref) [
        | inl (f, fs, waiting, got) ↦
            let at : (popped cm ref fs).heap ref
                ≡ record { frames = fs; closed = (cm.heap ref).closed } =
              popped_at ref s cm out f fs waiting in
            let (cm', run) =
              write_rounds_ends events (count_bytes s f) (popped cm ref fs) (out ++ (f ∷ []))
                (omega arith) (ap (λ (c : Channel). c.closed) at ∙ closed) ok.1
                (omega
                  (arith, enough, ap (λ (c : Channel). length c.frames) at, ap length waiting)) in
            (
              cm',
              rw (got, write_rounds)
                  (run
                    ∙ same_end s cm' _ _ _ _
                        (omega
                          (arith, ap (λ (c : Channel). bytes_of c.frames) at, ap bytes_of waiting))
                        (append_assoc out (f ∷ []) _
                          ∙ ap (λ left. out ++ left)
                              (ap (λ (c : Channel). f ∷ c.frames) at ∙ sym waiting))),
            )
        | inr (inl (empty, shut, got)) ↦ last_round events s cm out small empty got
        | inr (inr (empty, still, got)) ↦ absurd (cc (closed, still))
      ]

-- A subscriber whose id is taken out of the channels while its write loop runs: with every write
-- successful, the loop ends once it has had a round for each frame that waits and one more. By then it has
-- written these frames in their order and added their lengths to the count of bytes, modulo 2 ^ 64.
pub remove-write_rounds :
    (events : List Event) (id ref : ℕ) (s : Server) (cm : ChannelManager)
    → IsWired cm
    → get cm id ≡ some ref
    → s.broadcast_bytes < 2 ^ 64
    → All Succeeds events
    → length (cm.heap ref).frames < tries events
    → (cm' cm'' : ChannelManager) × (remove cm id ≡ some cm')
      × (write_rounds events ref s cm' [] ≡ (
        record s { broadcast_bytes = (s.broadcast_bytes + bytes_of (cm.heap ref).frames) % 2 ^ 64 },
        cm'',
        (cm.heap ref).frames,
        true,
      ))
unfolding get
remove-write_rounds events id ref s cm w h small ok enough =
    let (cm', removed, shut) = remove_closes cm id ref w h in
    let frames = ap (λ (c : Channel). c.frames) shut in
    let (cm'', run) =
      write_rounds_ends ref events s cm' [] small (ap (λ (c : Channel). c.closed) shut) ok
        (omega (arith, enough, ap length frames)) in
    (
      cm',
      cm'',
      removed,
      run
          ∙ same_end s cm'' _ _ _ _ (ap (λ fs. (s.broadcast_bytes + bytes_of fs) % 2 ^ 64) frames)
              frames,
    )
