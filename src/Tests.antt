-- ===== src/Tests.antt =====
-- The theorems at concrete inputs.
mod Wire
mod Network
mod Fragments
mod Parts
mod Tree
mod Orders
