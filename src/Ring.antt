-- ===== src/Ring.antt =====
-- src/core/ringbuf.c and ringbuf.h: the byte ring between the receive callback and the poll loop.
-- A call is one step in Defs and several in Steps; the fences keep their order.
mod Defs
pub mod Window
pub mod Write
pub mod Queue
pub mod Refine
pub mod Pop
pub mod Steps
pub mod Sound
pub mod Produce
pub mod Race
pub mod Alone
unfoldable pub use Defs.*
