-- ===== src/Clients/Tests.antt =====
-- A worker of the benchmark over three turns.
use aerocast.Prelude.{ℕ, ◌%◌, ◌^◌, ◌≡◌, Bool, true, false, List, [], ◌∷◌, map, some}
use aerocast.Clients.Text.{ascii}
use aerocast.Clients.Resp.{read_commands}
use aerocast.Clients.Benchmark.{Point, Blast, make_points, blast_loop}
use aerocast.Clients.Benchmark.Commands.{redis_args, tile38_args}
use aerocast.Clients.Benchmark.Blasted.{turns, fresh, length-make_points, blast_loop-read_commands}

-- A generator that always gives 0.5, and a format that prints the same text.
abbrev points : List Point
points = make_points (λ i. 0x3fe0000000000000)

abbrev zero_text : ℕ → List ℕ
zero_text x = ascii "0.000000"

abbrev answers : List Bool
answers = true ∷ false ∷ true ∷ []

blast_loop-read_commands_example :
    ((b : Blast) × (blast_loop zero_text "redis" points answers (fresh 49999 []) ≡ some b)
      × (read_commands 3 b.stream ≡ some (map (redis_args zero_text) (turns points 3 49999), []))
      × (b.ops_sent ≡ 3 % 2 ^ 64)
      × (b.ops_fail ≡ 0)
      × (b.datagrams ≡ []))
    × ((b : Blast) × (blast_loop zero_text "tile38" points answers (fresh 49999 []) ≡ some b)
        × (read_commands 3 b.stream ≡ some (map (tile38_args zero_text) (turns points 3 49999), []))
        × (b.ops_sent ≡ 3 % 2 ^ 64)
        × (b.ops_fail ≡ 0)
        × (b.datagrams ≡ []))
blast_loop-read_commands_example =
    blast_loop-read_commands zero_text points answers 49999 []
      (length-make_points (λ i. 0x3fe0000000000000))
