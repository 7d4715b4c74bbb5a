-- ===== src/Control.antt =====
-- src/pktsender.c: the signal handler and the loops of the logical cores.
pub mod Defs
pub mod Loops
pub mod Signals
pub mod Quiet
pub mod Draining
pub mod Polled
pub mod Stopping
mod Tests
