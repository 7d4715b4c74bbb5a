-- ===== src/Main.antt =====
-- `main` of src/main.c, from the start to the release of all that it takes.
pub mod Defs
pub mod Kept
pub mod Clean
pub mod Stages
pub mod Cleanup
mod Tests
