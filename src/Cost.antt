-- ===== src/Cost.antt =====
-- The cost model of simplified_translation/: every queue is a tally, every action adds to `__cost`.
pub mod Constants
pub mod Machine
pub mod Queue
pub mod Heap
pub mod Packet
pub mod Invariant
pub mod Loop
pub mod Valid
pub mod Bounds
mod Tests
