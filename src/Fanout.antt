-- ===== src/Fanout.antt =====
-- pkg/fanout: who is subscribed to which cells, and the channels by which frames reach them.
pub mod Channel
pub mod Subscribers
pub mod Multi
mod Tests
