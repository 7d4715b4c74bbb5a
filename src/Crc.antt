-- ===== src/Crc.antt =====
-- tools/hash.c: CRC-32C by slicing tables, against the polynomial division done bit by bit.
pub mod Reference
pub mod Tables
pub mod Hash
pub mod Slicing
pub mod Message
mod Tests
