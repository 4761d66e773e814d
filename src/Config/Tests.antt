-- ===== src/Config/Tests.antt =====
-- The loader on concrete files.
use aerocast.Prelude.{◌≡◌, ◌↔◌, refl, [], ◌∷◌, some, arith}
use aerocast.Prelude.Int.{pos, negsuc}
use aerocast.Transport.Udp.{Listener}
use aerocast.Config.{FileConfig, Reader, load, ok, apply_defaults, udp_transport_config}
use aerocast.Config.Accepted.{IsAccepted, timed, load_iff}

-- A file that sets the shards, and the batch size to -2.
abbrev raw : FileConfig
raw = record {
  server = record {
    ws_listen = "";
    udp_listen = "";
    metrics_listen = "";
    max_conns = pos 0;
    read_timeout = "";
    write_timeout = "";
  };
  spatial = record { grid_shards = pos 1024; cell_size_m = 0 };
  engine = record {
    tick_rate = pos 0;
    pipeline_workers = pos 2;
    max_entities = pos 0;
    tick_rate_str = "100ms";
  };
  web_socket = record {
    ping_interval = "";
    pong_timeout = "";
    max_frame_size = pos 0;
    write_buffer_per_conn = pos 0;
    writer_count = pos 0;
  };
  udp = record { batch_size = negsuc 1; read_buffer = pos 0; channel_size = pos 8 };
  logging = record { level = ""; format = "" };
}

abbrev reader : Reader
reader = record {
  read_file = λ path. some (35 ∷ []);
  unmarshal = λ bytes. some raw;
  parse_duration = λ text. some (pos 100_000_000);
}

load_iff_example : (load reader "aerocast.yaml" ≡ ok (apply_defaults raw)) ↔ (
    (t : FileConfig) × (timed reader raw ≡ some t)
    × (apply_defaults raw ≡ apply_defaults t)
    × IsAccepted (apply_defaults raw))
load_iff_example =
    load_iff reader "aerocast.yaml" (35 ∷ []) raw (apply_defaults raw) refl refl (omega arith)

abbrev doomed : Listener
doomed = record {
  cfg = udp_transport_config (apply_defaults raw).udp;
  out = [];
  capacity = 8;
  dropped_packets = 0;
}
