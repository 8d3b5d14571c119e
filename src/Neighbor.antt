-- ===== src/Neighbor.antt =====
-- src/link/neighbor.c and neighbor.h: the neighbour table and the estimate of link quality.
mod Defs
pub mod Cost
pub mod Unique
pub mod Table
pub mod Drop
unfoldable pub use Defs.*
