-- ===== src/Engine.antt =====
-- pkg/engine: the sketches and the packet pipeline.
pub mod Hash32
pub mod Cms
pub mod Hll
pub mod Bloom
pub mod Pipeline
pub mod Config
pub mod Stats
pub mod Assembly
pub mod Serving
pub mod Workers
pub mod Lifecycle
mod Tests
