-- ===== src/Clients.antt =====
-- cmd/loadtest and examples: the programs that drive a server. Connections, flags and the clock are
-- outside; a random number is an argument.
pub mod Text
pub mod Resp
pub mod Benchmark
pub mod Loadtest
pub mod Web
mod Tests
