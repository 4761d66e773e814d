-- ===== src/Transport.antt =====
-- pkg/transport: the UDP listener and the WebSocket server.
pub mod Udp
pub mod Ws
mod Tests
