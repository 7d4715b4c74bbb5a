-- ===== src/Stats.antt =====
-- src/stat.c: the statistics of the ports.
pub mod Defs
pub mod Listed
pub mod Totals
mod Tests
