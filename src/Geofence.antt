-- ===== src/Geofence.antt =====
-- pkg/geofence: fences, the store that indexes them by cell, and the events of a move.
pub mod Fence
pub mod Store
pub mod Evaluate
mod Tests
