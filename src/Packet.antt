-- ===== src/Packet.antt =====
-- The packets of src/pkt_seq.c: their fields, their headers in memory and their checksums.
pub mod Defs
pub mod Construct
pub mod Checksum
pub mod Dissect
pub mod Kept
mod Tests
