-- ===== src/Transmitter.antt =====
-- src/transmitter.c: the bursts of packets of one TX queue.
pub mod Defs
pub mod Unrolled
pub mod Burst
pub mod Paced
pub mod Setup
pub mod Templates
mod Tests
