-- ===== src/Lib.antt =====
-- aerocast takes position packets of moving entities over UDP, keeps each entity in a grid of 16
-- by 16 cells, fires geofence events, and sends the positions of a cell to its subscribers in
-- frames over WebSocket. This library models the parts that carry that logic, function by
-- function, and proves what they promise.
--
-- The parts and the files that model them:
-- - pkg/binary, the wire formats: Binary/Codec (codec.go, coord.go), Binary/Subscription
--   (subscription.go), Binary/Egress (egress.go). Bytes are numbers below 256 and floats are their
--   bit patterns. A buffer from a pool is an argument.
-- - pkg/spatial: Spatial/Hash (hash.go) maps a position to its cell and a circle to the cells near
--   it; Spatial/Grid (grid.go) holds the entities, in 256 shards of 16 maps.
-- - pkg/geofence: Geofence/Fence (fence.go), Geofence/Store (store.go) files a fence under the
--   cells near it, Geofence/Evaluate (evaluate.go, event.go) finds the events of a move and calls
--   back.
-- - pkg/fanout: Fanout/Channel (channel.go) is a heap of buffered channels and the map to them;
--   Fanout/Subscribers (engine.go, subscription.go) holds the subscriptions, the index from cells
--   to ids, and Broadcast; Fanout/Multi is BroadcastMulti.
-- - pkg/engine: Engine/Cms, Engine/Hll and Engine/Bloom are the sketches of cms.go, hll.go and
--   bloom.go; Engine/Pipeline is the state of engine.go with ProcessPacket, the tick (pipeline.go)
--   and the callbacks of the server (callbacks.go). It calls the grid, the evaluator and the fan-
--   out. Engine/Config and Engine/Stats are config.go and stats.go, Engine/Assembly is NewEngine
--   and the number of workers that Run starts, and Engine/Serving puts the engine behind the
--   WebSocket server. Engine/Workers takes ProcessPacket apart into the single accesses of workers
--   that run side by side. Engine/Lifecycle is Run from the start of its goroutines to its return,
--   with the end of Run in pkg/transport, and Close.
-- - pkg/transport: Transport/Udp (listener.go, packet.go and the batches) turns datagrams into the
--   packets that the workers take from its channel; Transport/Ws (ws.go) has the registry of
--   connections, their handler and their write loop. The server calls the engine through the
--   record Callbacks, which Engine/Serving fills.
-- - pkg/config: Config (loader.go) reads a file, fills in the defaults and checks it.
-- - aerocast.go: Facade. cmd/aerocastd/main.go: Daemon, with the configuration of the engine, the
--   loop that feeds the metrics, the health check and the exit. pkg/metrics: Metrics (metrics.go)
--   registers the collectors.
-- - cmd/loadtest and examples: Clients. Clients/Loadtest has the senders and the reporter,
--   Clients/Benchmark the workers of benchmark_compare, Clients/Resp a reader of the protocol of
--   Redis and Tile38, Clients/Web the simulated entities of basic_web.
-- - Float is the float64 arithmetic that the rest uses, and Prelude the shared lemmas.
--
-- A function of the source has the same name in snake case. A method takes its receiver's state
-- and returns the new one; an array is a function of its index, a map an association list without
-- repeated keys, nil is `none`, and a result of `none` from an operation is a panic. Machine words
-- have their wrap-around written out.
--
-- Float follows IEEE 754 binary64 as amd64 computes it, with no fused operations and with one not-
-- a-number. Sin, Cos, Sqrt, Atan2 and the conversions that overflow their integer type are the
-- fields of `Platform`, a parameter of everything that uses them; no theorem assumes anything of
-- them. The loops of the source are structural recursion on the rounds that are left. The only
-- fuel is in Float, for the length of a number in binary: 5000 digits, where a product or a
-- shifted quotient has fewer than 4300.
--
-- The model runs one operation at a time, as the mutexes of the source make the accesses of most
-- operations atomic. In Engine/Serving the handlers of connections, their write loops and the
-- engine take turns, each operation as a whole: a packet, a tick with all its broadcasts, a
-- subscription or a disconnect, so that no disconnect falls into a broadcast there. Engine/Workers
-- interleaves the accesses of workers within ProcessPacket: each access is one that a lock or an
-- atomic covers, the count of the sketch and the evaluation of a move are one access each, and a
-- pointer to a last position shows the position of the moment when it is followed.
-- Spatial/Grid/Race and Fanout/Subscribers/Race treat what can go wrong between the accesses: two
-- workers with one entity, and a subscriber that leaves during a broadcast. Where Go ranges over a
-- map the order is an argument, or the theorems count entries or follow lists that the source also
-- keeps in order. Int indices are unbounded integers.
--
-- The operating system, the clock, the YAML parser, the registry of the metrics and the parsers of
-- strconv and time are arguments: what they answer is given to the definitions. The theorems on
-- runs of the listener assume of the kernel that it keeps to the buffer that it was given.
--
-- Not modelled: the sockets, the HTTP servers and the logs; the goroutine that accepts
-- connections, but for the end of Run that its failure causes; the flags and signals of
-- cmd/aerocastd, cmd/loadtest and examples, their dialling and their printing. They are I/O around
-- the parts above. In Engine/Lifecycle a tick, a packet and a shutdown of the HTTP server are one
-- step each, where a tick and a packet may also panic, all goroutines have been started, a batch
-- is that of Linux, and the scheduler and the select of Go may choose as they like: what is said
-- of the return of Run is that a way to it always stays open.
pub mod Prelude
pub mod Float
pub mod Binary
pub mod Spatial
pub mod Geofence
pub mod Fanout
pub mod Transport
pub mod Engine
pub mod Config
pub mod Facade
pub mod Daemon
pub mod Metrics
pub mod Clients
