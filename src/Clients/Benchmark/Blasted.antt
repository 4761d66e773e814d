-- ===== src/Clients/Benchmark/Blasted.antt =====
-- What a worker of examples/benchmark_compare sends and counts.
use Prim.Native.String.{String}
use aerocast.Prelude.{
  ℕ, zero, suc, ◌+◌, ◌%◌, ◌^◌, ◌<◌, ◌≡◌, ◌∙◌, refl, sym, ap, subst, Bool, true, List, [], ◌∷◌, ◌++◌,
  map, length, some, append_assoc, append-nil, get_elem?, get_or, arith, length-map,
}
use aerocast.Clients.Benchmark.{
  Point, Blast, pregen_size, blast_loop, operate, count, make_points, points_loop,
}
use aerocast.Clients.Benchmark.Commands.{
  redis_args, tile38_args, command, commands, write_redis_cmd_lem, write_tile38_cmd_lem,
  read_commands-commands,
}
use aerocast.Clients.Resp.{read_commands}

abbrev pub no_point : Point
no_point = record { lat = 0; lng = 0; id = 0 }

-- The points of so many turns, from an index on: round and round.
abbrev pub turns : List Point → ℕ → ℕ → List Point
turns pts zero idx = []
turns pts (suc n) idx = get_or pts (idx % pregen_size) no_point ∷ turns pts n (idx + 1)

pub get_elem?-get_or :
    {A : Type 0} (xs : List A) (i : ℕ) (a : A)
    → i < length xs
    → get_elem? xs i ≡ some (get_or xs i a)
get_elem?-get_or [] i a h = absurd (omega arith)
get_elem?-get_or (x ∷ xs) zero a h = refl
get_elem?-get_or (x ∷ xs) (suc i) a h = get_elem?-get_or xs i a (omega arith)

-- A worker that differs in its index, its stream and what it has sent.
moved : Blast → ℕ → List ℕ → ℕ → Blast
moved b idx stream sent = record b { idx = idx; stream = stream; ops_sent = sent }

moved_cong :
    (b : Blast) (i i' : ℕ) (s s' : List ℕ) (n n' : ℕ)
    → i ≡ i'
    → s ≡ s'
    → n ≡ n'
    → some (moved b i s n) ≡ some (moved b i' s' n')
moved_cong b i i' s s' n n' h k m = rw (h, k, m) refl

-- A worker after so many turns at a target whose commands have these arguments.
after_turns : (Point → List (List ℕ)) → List Point → ℕ → Blast → Blast
unfolding moved
after_turns args pts n b =
    moved b (b.idx + n) (b.stream ++ commands (map args (turns pts n b.idx)))
      ((b.ops_sent + n) % 2 ^ 64)

-- A target whose commands have these arguments.
module _ (format : ℕ → List ℕ) (target : String) (args : Point → List (List ℕ))
    (writes : (written : Bool) (b : Blast) (pt : Point)
      → operate format target written b pt
        ≡ some (record b { stream = b.stream ++ command (args pt) }, true)) where
  blast_loop-commands :
      (pts : List Point) (answers : List Bool) (b : Blast)
      → length pts ≡ pregen_size
      → b.ops_sent < 2 ^ 64
      → blast_loop format target pts answers b ≡ some (after_turns args pts (length answers) b)
  unfolding blast_loop count after_turns moved
  blast_loop-commands pts [] b full small =
      moved_cong b b.idx (b.idx + 0) b.stream (b.stream ++ []) b.ops_sent
        ((b.ops_sent + 0) % 2 ^ 64) (omega arith) (sym (append-nil b.stream)) (omega arith)
  blast_loop-commands pts (written ∷ answers) b full small =
      let pt : Point = get_or pts (b.idx % pregen_size) no_point in
      let b1 : Blast =
        moved b (b.idx + 1) (b.stream ++ command (args pt)) ((b.ops_sent + 1) % 2 ^ 64) in
      rw
        (
          get_elem?-get_or pts (b.idx % pregen_size) no_point (omega arith),
          writes written (record b { idx = b.idx + 1 }) pt,
        )
        (blast_loop-commands pts answers b1 full (omega arith)
          ∙ moved_cong b _ (b.idx + suc (length answers)) _ _ _
              ((b.ops_sent + suc (length answers)) % 2 ^ 64) (omega arith)
              (append_assoc b.stream (command (args pt))
                (commands (map args (turns pts (length answers) (b.idx + 1)))))
              (omega arith))

length-turns : (pts : List Point) (n idx : ℕ) → length (turns pts n idx) ≡ n
length-turns pts zero idx = refl
length-turns pts (suc n) idx = ap suc (length-turns pts n (idx + 1))

read_turns :
    (args : Point → List (List ℕ)) (pts : List Point) (n idx : ℕ)
    → read_commands n (commands (map args (turns pts n idx)))
      ≡ some (map args (turns pts n idx), [])
read_turns args pts n idx =
    subst
      (λ k.
        read_commands k (commands (map args (turns pts n idx)))
        ≡ some (map args (turns pts n idx), []))
      (length-map (turns pts n idx) args ∙ length-turns pts n idx)
      (subst
        (λ s.
          read_commands (length (map args (turns pts n idx))) s
          ≡ some (map args (turns pts n idx), []))
        (append-nil (commands (map args (turns pts n idx))))
        (read_commands-commands (map args (turns pts n idx)) []))

-- A worker at its start.
abbrev pub fresh : ℕ → List ℕ → Blast
fresh idx buf = record {
  idx = idx;
  buf = buf;
  datagrams = [];
  stream = [];
  ops_sent = 0;
  ops_fail = 0;
}

-- A worker for Redis or Tile38 hands its writer one whole command for each turn, about the points from its
-- index on, round and round: a reader of the protocol reads exactly these commands and nothing more.
-- It counts every turn as sent and none as failed, whatever the connection answers.
pub blast_loop-read_commands :
    (format : ℕ → List ℕ) (pts : List Point) (answers : List Bool) (idx : ℕ) (buf : List ℕ)
    → length pts ≡ pregen_size
    → ((b : Blast) × (blast_loop format "redis" pts answers (fresh idx buf) ≡ some b)
        × (read_commands (length answers) b.stream
            ≡ some (map (redis_args format) (turns pts (length answers) idx), []))
        × (b.ops_sent ≡ length answers % 2 ^ 64)
        × (b.ops_fail ≡ 0)
        × (b.datagrams ≡ []))
      × ((b : Blast) × (blast_loop format "tile38" pts answers (fresh idx buf) ≡ some b)
          × (read_commands (length answers) b.stream
              ≡ some (map (tile38_args format) (turns pts (length answers) idx), []))
          × (b.ops_sent ≡ length answers % 2 ^ 64)
          × (b.ops_fail ≡ 0)
          × (b.datagrams ≡ []))
unfolding operate after_turns moved
blast_loop-read_commands format pts answers idx buf full = (
  (
    after_turns (redis_args format) pts (length answers) (fresh idx buf),
    blast_loop-commands format "redis" (redis_args format)
        (λ written b pt. rw (write_redis_cmd_lem format b.stream pt) refl) pts answers
        (fresh idx buf) full (omega arith),
    read_turns (redis_args format) pts (length answers) idx,
    omega arith,
    refl,
    refl,
  ),
  (
    after_turns (tile38_args format) pts (length answers) (fresh idx buf),
    blast_loop-commands format "tile38" (tile38_args format)
        (λ written b pt. rw (write_tile38_cmd_lem format b.stream pt) refl) pts answers
        (fresh idx buf) full (omega arith),
    read_turns (tile38_args format) pts (length answers) idx,
    omega arith,
    refl,
    refl,
  ),
)

length-points_loop : (n i : ℕ) (rand : ℕ → ℕ) → length (points_loop n i rand) ≡ n
unfolding points_loop
length-points_loop zero i rand = refl
length-points_loop (suc n) i rand = ap suc (length-points_loop n (i + 1) rand)

-- The points that main makes are as many as a worker counts on.
pub length-make_points : (rand : ℕ → ℕ) → length (make_points rand) ≡ pregen_size
unfolding make_points
length-make_points rand = length-points_loop pregen_size 0 rand
