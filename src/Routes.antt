-- ===== src/Routes.antt =====
-- The downward route table of src/routing/routing.c and routing.h.
mod Defs
pub mod Lookup
pub mod Stale
unfoldable pub use Defs.*
