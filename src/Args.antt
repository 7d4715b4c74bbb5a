-- ===== src/Args.antt =====
-- The options of src/main.c: the configuration string and the command line.
pub mod Defs
pub mod Options
pub mod Bounds
pub mod RoundTrip
pub mod Accepted
pub mod Stale
mod Tests
