-- ===== src/Queues.antt =====
-- core/queues and contracts/packets.py: the packets between the tasks of a call, and their queues.
pub mod Packet
pub mod Queue
pub mod Session
pub mod Put
pub mod Purge
