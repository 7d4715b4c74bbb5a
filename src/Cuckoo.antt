-- ===== src/Cuckoo.antt =====
-- tools/cuckoohash.c and tools/cuckoohash.h: the cuckoo hash table of the tools.
pub mod Defs
pub mod Space
pub mod Table
pub mod Search
pub mod Moves
pub mod Making
pub mod Depth
pub mod Valid
pub mod Lookup
pub mod Holds
pub mod Delete
pub mod Written
pub mod Alike
pub mod Taken
pub mod Insert
pub mod Add
pub mod Iterate
pub mod Create
pub mod New
pub mod Sized
mod Tests
