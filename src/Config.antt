-- ===== src/Config.antt =====
-- pkg/config/loader.go. An int is an integer, in 64 bits where the code looks at its bits; a duration
-- is its nanoseconds. What the file system, the YAML parser and time.ParseDuration answer is a
-- parameter.
pub mod Accepted
pub mod Defaults
mod Tests
use Prim.Native.Nat.{bit_and}
use Prim.Native.String.{String}
use text.Mathlib.Text.{◌==◌ as str_eq}
use aerocast.Prelude.{
  ◌>>=◌, ℕ, zero, suc, ◌+◌, ◌-◌, ◌*◌, ◌%◌, ◌^◌, Bool, true, false, not, List, Option, none, some,
  ltb, leb, ◌==◌, if◌then◌else◌,
}
use aerocast.Prelude.Int.{ℤ, pos, negsuc, ltb_ℤ}
use aerocast.Float
use aerocast.Transport.Udp
use aerocast.Transport.Ws

pub record ServerConfig : Type 0 where
  pub ws_listen : String
  pub udp_listen : String
  pub metrics_listen : String
  pub max_conns : ℤ
  pub read_timeout : String
  pub write_timeout : String

pub record SpatialConfig : Type 0 where
  pub grid_shards : ℤ
  pub cell_size_m : ℕ

pub record EngineConfig : Type 0 where
  pub tick_rate : ℤ
  pub pipeline_workers : ℤ
  pub max_entities : ℤ
  pub tick_rate_str : String

pub record WebSocketConfig : Type 0 where
  pub ping_interval : String
  pub pong_timeout : String
  pub max_frame_size : ℤ
  pub write_buffer_per_conn : ℤ
  pub writer_count : ℤ

pub record UdpConfig : Type 0 where
  pub batch_size : ℤ
  pub read_buffer : ℤ
  pub channel_size : ℤ

pub record LoggingConfig : Type 0 where
  pub level : String
  pub format : String

pub record FileConfig : Type 0 where
  pub server : ServerConfig
  pub spatial : SpatialConfig
  pub engine : EngineConfig
  pub web_socket : WebSocketConfig
  pub udp : UdpConfig
  pub logging : LoggingConfig

-- os.ReadFile, yaml.Unmarshal into a FileConfig of zeros, and time.ParseDuration, none for an error.
pub record Reader : Type 0 where
  pub read_file : String → Option (List ℕ)
  pub unmarshal : List ℕ → Option FileConfig
  pub parse_duration : String → Option ℤ

pub data LoadError : Type 0 where
  read_file parse_yaml parse_tick_rate : LoadError
  not_power_of_2 above_max : ℤ → LoadError
  max_connections pipeline_workers : LoadError

pub data Loaded : Type 0 where
  ok : FileConfig → Loaded
  err : LoadError → Loaded

-- `if c.F == "" { c.F = d }` and `if c.F == 0 { c.F = d }`
unfoldable pub text_or : String → String → String
text_or s d = if str_eq s "" then d else s

unfoldable pub int_or : ℤ → ℤ → ℤ
int_or (pos zero) d = d
int_or (pos (suc n)) d = pos (suc n)
int_or (negsuc n) d = negsuc n

unfoldable pub float_or : ℕ → ℕ → ℕ
float_or x d = if Float.eq x 0 then d else x

-- applyDefaults; 500.0 is the cell size.
unfoldable pub apply_defaults : FileConfig → FileConfig
apply_defaults c = record {
  server = record c.server {
    ws_listen = text_or c.server.ws_listen ":9100";
    udp_listen = text_or c.server.udp_listen ":9101";
    metrics_listen = text_or c.server.metrics_listen ":9102";
    max_conns = int_or c.server.max_conns (pos 500_000);
  };
  spatial = record {
    grid_shards = int_or c.spatial.grid_shards (pos 256);
    cell_size_m = float_or c.spatial.cell_size_m 0x407f_4000_0000_0000;
  };
  engine = record c.engine {
    tick_rate = int_or c.engine.tick_rate (pos (50 * 10 ^ 6));
    pipeline_workers = int_or c.engine.pipeline_workers (pos 4);
    max_entities = int_or c.engine.max_entities (pos 2_000_000);
  };
  web_socket = record {
    ping_interval = text_or c.web_socket.ping_interval "30s";
    pong_timeout = text_or c.web_socket.pong_timeout "10s";
    max_frame_size = int_or c.web_socket.max_frame_size (pos 1024);
    write_buffer_per_conn = int_or c.web_socket.write_buffer_per_conn (pos 64);
    writer_count = int_or c.web_socket.writer_count (pos 4);
  };
  udp = record {
    batch_size = int_or c.udp.batch_size (pos 32);
    read_buffer = int_or c.udp.read_buffer (pos (4 * 1024 * 1024));
    channel_size = int_or c.udp.channel_size (pos 65_536);
  };
  logging = record {
    level = text_or c.logging.level "info";
    format = text_or c.logging.format "json";
  };
}

-- The 64 bits of an int, and those of the int before it.
unfoldable pub word : ℤ → ℕ
word (pos n) = n % 2 ^ 64
word (negsuc n) = 2 ^ 64 - 1 - n % 2 ^ 64

unfoldable pub word_before : ℤ → ℕ
unfolding word
word_before z = (word z + (2 ^ 64 - 1)) % 2 ^ 64

unfoldable pub validate : FileConfig → Option LoadError
validate c =
    if not (bit_and (word c.spatial.grid_shards) (word_before c.spatial.grid_shards) == 0)
    then some (not_power_of_2 c.spatial.grid_shards)
    else if ltb_ℤ (pos 65_536) c.spatial.grid_shards
    then some (above_max c.spatial.grid_shards)
    else if not (ltb_ℤ (pos 0) c.server.max_conns)
    then some max_connections
    else if not (ltb_ℤ (pos 0) c.engine.pipeline_workers)
    then some pipeline_workers
    else none

-- Load behind the parsing: the tick rate of the file, the defaults and the check.
check_loaded : FileConfig → Loaded
check_loaded c = elim (validate (apply_defaults c)) [
  | none ↦ ok (apply_defaults c)
  | some e ↦ err e
]

with_tick_rate : Reader → FileConfig → Loaded
unfolding check_loaded
with_tick_rate r c =
    if str_eq c.engine.tick_rate_str ""
    then check_loaded c
    else elim (r.parse_duration c.engine.tick_rate_str) [
      | none ↦ err parse_tick_rate
      | some dur ↦ check_loaded (record c { engine = record c.engine { tick_rate = dur } })
    ]

unfoldable pub load : Reader → String → Loaded
unfolding with_tick_rate
load r path = elim (r.read_file path) [
  | none ↦ err read_file
  | some bytes ↦ elim (r.unmarshal bytes) [ none ↦ err parse_yaml | some c ↦ with_tick_rate r c ]
]

-- WebSocketConfig.ToTransportConfig, which reads none of its fields.
unfoldable pub ws_transport_config : WebSocketConfig → Ws.Config
ws_transport_config c = Ws.default_config

-- UDPConfig.ToTransportConfig
unfoldable pub udp_transport_config : UdpConfig → Udp.Config
udp_transport_config c = record Udp.default_config {
  batch_size = c.batch_size;
  read_buffer = c.read_buffer;
  channel_size = c.channel_size;
}
