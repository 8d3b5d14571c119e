-- ===== src/Node.antt =====
-- One instance of the library: its state and the functions of src/routing/routing.c,
-- src/link/beacon.c and src/api/treenet.c.
pub mod State
pub mod Event
pub mod Tx
pub mod Control
pub mod Beacon
pub mod Parent
pub mod Ack
pub mod TxPoll
pub mod Dao
pub mod Reasm
pub mod Receive
pub mod Lifecycle
pub mod Poll
pub mod Send
pub mod Inspect
mod Quiet
pub mod EventList
pub mod Announce
pub mod Rank
pub mod Late
pub mod Place
pub mod Steady
pub mod Drain
pub mod Invariant
pub mod Deadline
pub mod Capacity
pub mod Queued
pub mod Relay
pub mod Once
pub mod Candidate
pub mod Listing
pub mod Refuse
pub mod Buffer
pub mod Mask
pub mod Datagram
pub mod Gather
pub mod Assemble
pub mod Whole
pub mod Order
pub mod Intact
pub mod Life
