-- ===== src/Spatial.antt =====
-- pkg/spatial: the cells of the earth, and the grid that keeps each entity in its cell.
pub mod Hash
pub mod Grid
mod Tests
