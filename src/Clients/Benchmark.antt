-- ===== src/Clients/Benchmark.antt =====
-- examples/benchmark_compare/main.go: the points, the writers of the Redis and Tile38 commands and a
-- worker's loop. A bufio.Writer is the list of the bytes that it was handed, in order: it groups them
-- and keeps the first error for its Flush. strconv.AppendFloat with format f and precision 6 is an
-- argument.
pub mod Commands
pub mod Blasted
pub mod Datagrams
use Prim.Native.String.{String}
use text.Mathlib.Text.{◌==◌ as str_eq}
use aerocast.Prelude.{
  ◌>>=◌, ℕ, zero, suc, ◌+◌, ◌*◌, ◌/◌, ◌%◌, ◌^◌, Bool, true, false, List, [], ◌∷◌, ◌++◌, length,
  Option, none, some, if◌then◌else◌, get_elem?,
}
use aerocast.Binary.Codec.{put_at}
use aerocast.Binary.LittleEndian.{put_bytes}
use aerocast.Float
use aerocast.Clients.Text.{ascii, decimal, crlf}

-- const pregenSize
abbrev pub pregen_size : ℕ
pregen_size = 50000

-- pt
pub record Point : Type 0 where
  pub lat : ℕ
  pub lng : ℕ
  pub id : ℕ

-- The points left, and the index of the next one. A random number is looked up by its place.
points_loop : ℕ → ℕ → (ℕ → ℕ) → List Point
points_loop zero i rand = []
points_loop (suc n) i rand =
    record {
      lat = Float.sub (Float.mul (rand (2 * i)) (Float.of_ℕ 180)) (Float.of_ℕ 90);
      lng = Float.sub (Float.mul (rand (2 * i + 1)) (Float.of_ℕ 360)) (Float.of_ℕ 180);
      id = (i + 1) % 2 ^ 32;
    }
    ∷ points_loop n (i + 1) rand

unfoldable pub make_points : (ℕ → ℕ) → List Point
unfolding points_loop
make_points rand = points_loop pregen_size 0 rand

-- tmpBuf = append(tmpBuf[:0], "dev_"...) and AppendUint
unfoldable pub device_name : ℕ → List ℕ
device_name id = ascii "dev_" ++ decimal id

-- The five writes for one argument of a command.
write_arg : List ℕ → List ℕ → List ℕ
write_arg w tmp_buf =
    let w1 = w ++ ascii "$" in
    let w2 = w1 ++ decimal (length tmp_buf) in
    let w3 = w2 ++ ascii "\r\n" in let w4 = w3 ++ tmp_buf in w4 ++ ascii "\r\n"

-- Both writers return nil.
unfoldable pub write_redis_cmd : (ℕ → List ℕ) → List ℕ → ℕ → ℕ → ℕ → List ℕ
unfolding write_arg
write_redis_cmd format w lng lat id =
    let w1 = w ++ ascii "*5\r\n$6\r\nGEOADD\r\n$5\r\nfleet\r\n" in
    let w2 = write_arg w1 (format lng) in
    let w3 = write_arg w2 (format lat) in write_arg w3 (device_name id)

unfoldable pub write_tile38_cmd : (ℕ → List ℕ) → List ℕ → ℕ → ℕ → ℕ → List ℕ
unfolding write_arg
write_tile38_cmd format w id lat lng =
    let w1 = w ++ ascii "*6\r\n$3\r\nSET\r\n$5\r\nfleet\r\n" in
    let w2 = write_arg w1 (device_name id) in
    let w3 = w2 ++ ascii "$5\r\nPOINT\r\n" in
    let w4 = write_arg w3 (format lat) in write_arg w4 (format lng)

-- The packet of an aerocast worker, in its buffer.
unfoldable pub build_packet : List ℕ → Point → Option (List ℕ)
build_packet buf pt = do
  b1 ← put_at 0 (put_bytes 4 pt.id) buf
  b2 ← put_at 4 (put_bytes 8 pt.lng) b1
  put_at 12 (put_bytes 8 pt.lat) b2

-- A worker: its index, its buffer, what it has sent as datagrams and handed to its writer, and the two
-- counters.
pub record Blast : Type 0 where
  pub idx : ℕ
  pub buf : List ℕ
  pub datagrams : List (List ℕ)
  pub stream : List ℕ
  pub ops_sent : ℕ
  pub ops_fail : ℕ

count : Bool → Blast → Blast
count true b = record b { ops_sent = (b.ops_sent + 1) % 2 ^ 64 }
count false b = record b { ops_fail = (b.ops_fail + 1) % 2 ^ 64 }

unfoldable pub start_index : ℕ → ℕ → ℕ
start_index worker_id workers = worker_id * (pregen_size / workers)

module _ (format : ℕ → List ℕ) (target : String) where
  -- The switch, with the answer of conn.Write; the Boolean says that err is nil, which it is before.
  operate : Bool → Blast → Point → Option (Blast × Bool)
  operate written b pt =
      if str_eq target "aerocast"
      then (do
        packet ← build_packet b.buf pt
        some (record b { buf = packet; datagrams = b.datagrams ++ packet ∷ [] }, written))
      else if str_eq target "redis"
      then some (record b { stream = write_redis_cmd format b.stream pt.lng pt.lat pt.id }, true)
      else if str_eq target "tile38"
      then some (record b { stream = write_tile38_cmd format b.stream pt.id pt.lat pt.lng }, true)
      else some (b, true)

  -- The loop, until stopSig is set or a write fails: an answer of conn.Write for each turn. A missing
  -- point is a panic.
  unfoldable pub blast_loop : List Point → List Bool → Blast → Option Blast
  unfolding operate count
  blast_loop pts [] b = some b
  blast_loop pts (written ∷ answers) b = do
    pt ← get_elem? pts (b.idx % pregen_size)
    r ← operate written (record b { idx = b.idx + 1 }) pt
    rest ← some (blast_loop pts answers (count r.1 r.0))
    if r.1 then rest else some (count r.1 r.0)
