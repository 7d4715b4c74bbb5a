-- ===== src/Probe.antt =====
-- src/probe.c: the probe packets that a timer sends from each port.
pub mod Defs
pub mod Sequence
pub mod Run
mod Tests
