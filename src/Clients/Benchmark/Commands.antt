-- ===== src/Clients/Benchmark/Commands.antt =====
-- What the servers of examples/benchmark_compare read of a worker's stream.
use aerocast.Prelude.{ℕ, ◌≡◌, refl, List, [], ◌∷◌, ◌++◌, length, some, append_assoc}
use aerocast.Clients.Text.{ascii, decimal, crlf, read_number-decimal}
use aerocast.Clients.Resp.{after, bulks, read_bulks-bulks, read_command, read_commands}
use aerocast.Clients.Benchmark.{Point, device_name, write_arg, write_redis_cmd, write_tile38_cmd}

-- The arguments of GEOADD and of SET for a point.
abbrev pub redis_args : (ℕ → List ℕ) → Point → List (List ℕ)
redis_args format pt =
    ascii "GEOADD" ∷ ascii "fleet" ∷ format pt.lng ∷ format pt.lat ∷ device_name pt.id ∷ []

abbrev pub tile38_args : (ℕ → List ℕ) → Point → List (List ℕ)
tile38_args format pt =
    ascii "SET"
    ∷ ascii "fleet"
    ∷ device_name pt.id
    ∷ ascii "POINT"
    ∷ format pt.lat
    ∷ format pt.lng
    ∷ []

-- A command on the wire.
abbrev pub command : List (List ℕ) → List ℕ
command args = 42 ∷ (decimal (length args) ++ (crlf ++ bulks args))

pub write_redis_cmd_lem :
    (format : ℕ → List ℕ) (w : List ℕ) (pt : Point)
    → write_redis_cmd format w pt.lng pt.lat pt.id ≡ w ++ command (redis_args format pt)
unfolding write_redis_cmd write_arg decimal
write_redis_cmd_lem format w pt = simp append_assoc

pub write_tile38_cmd_lem :
    (format : ℕ → List ℕ) (w : List ℕ) (pt : Point)
    → write_tile38_cmd format w pt.id pt.lat pt.lng ≡ w ++ command (tile38_args format pt)
unfolding write_tile38_cmd write_arg decimal
write_tile38_cmd_lem format w pt = simp append_assoc

read_command-command :
    (args : List (List ℕ)) (s : List ℕ) → read_command (command args ++ s) ≡ some (args, s)
unfolding read_command after
read_command-command args s =
    rw (append_assoc (decimal (length args)) (crlf ++ bulks args) s)
      (rw (read_number-decimal (length args) (bulks args ++ s)) (read_bulks-bulks args s))

-- The commands of a stream of them.
abbrev pub commands : List (List (List ℕ)) → List ℕ
commands [] = []
commands (c ∷ cs) = command c ++ commands cs

pub read_commands-commands :
    (cs : List (List (List ℕ))) (s : List ℕ)
    → read_commands (length cs) (commands cs ++ s) ≡ some (cs, s)
unfolding read_commands
read_commands-commands [] s = refl
read_commands-commands (c ∷ cs) s =
    rw (append_assoc (command c) (commands cs) s)
      (rw (read_command-command c (commands cs ++ s)) (rw (read_commands-commands cs s) refl))
