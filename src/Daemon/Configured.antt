-- ===== src/Daemon/Configured.antt =====
-- The daemon's configuration against the default one of pkg/engine.
use aerocast.Prelude.{◌≡◌, refl}
use aerocast.Prelude.Int.{pos}
use aerocast.Config.{
  FileConfig, WebSocketConfig, LoggingConfig, apply_defaults, text_or, int_or, float_or,
  ws_transport_config, udp_transport_config,
}
use aerocast.Float
use aerocast.Transport.Udp
use aerocast.Transport.Ws
use aerocast.Engine.Config
use aerocast.Daemon.{engine_config}

-- The zero values of yaml.Unmarshal for an empty file.
abbrev pub empty_file : FileConfig
empty_file = record {
  server = record {
    ws_listen = "";
    udp_listen = "";
    metrics_listen = "";
    max_conns = pos 0;
    read_timeout = "";
    write_timeout = "";
  };
  spatial = record { grid_shards = pos 0; cell_size_m = 0 };
  engine = record {
    tick_rate = pos 0;
    pipeline_workers = pos 0;
    max_entities = pos 0;
    tick_rate_str = "";
  };
  web_socket = record {
    ping_interval = "";
    pong_timeout = "";
    max_frame_size = pos 0;
    write_buffer_per_conn = pos 0;
    writer_count = pos 0;
  };
  udp = record { batch_size = pos 0; read_buffer = pos 0; channel_size = pos 0 };
  logging = record { level = ""; format = "" };
}

-- With a file that leaves the server, the grid, the engine and the listener empty, whatever else it says, the daemon
-- runs the engine with DefaultConfig, except that the WebSocket server listens on ":9100" there and on
-- "127.0.0.1:9100" by DefaultConfig.
pub engine_config-default :
    {E : Type 0} (web : WebSocketConfig) (logging : LoggingConfig)
    → engine_config {E = E}
        (apply_defaults (record empty_file { web_socket = web; logging = logging }))
      ≡ record Config.default_config { ws = record Ws.default_config { listen_addr = ":9100" } }
unfolding engine_config apply_defaults Float.eq Config.default_config Udp.default_config
    Ws.default_config udp_transport_config ws_transport_config text_or int_or float_or
engine_config-default web logging = refl
