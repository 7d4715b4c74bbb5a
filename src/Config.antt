-- ===== src/Config.antt =====
-- src/main.c: the mappings of ports to lcores, and the rate.
pub mod Defs
pub mod Kept
pub mod Measured
pub mod Distinct
pub mod Assign
pub mod Lists
pub mod Rate
mod Tests
