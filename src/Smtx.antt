-- ===== src/Smtx.antt =====
-- The closer translation in translation/: software queues in shared memory, and pools of packets.
pub mod Queue
pub mod Packet
pub mod Loop
pub mod Mapping
mod Tests
