-- ===== src/Sim.antt =====
-- src/sim/sim.c and sim.h: the network simulator, which runs instances of the library over a shared
-- radio channel in virtual time.
pub mod Double
pub mod State
pub mod Prng
pub mod Callbacks
pub mod Link
pub mod Deliver
pub mod Api
pub mod Talk
pub mod Run
pub mod Pointwise
pub mod Evolve
pub mod Draws
pub mod Heard
pub mod Seed
pub mod Course
pub mod Clock
pub mod Channel
pub mod Room
pub mod Sound
pub mod Scenario
