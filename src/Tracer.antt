-- ===== src/Tracer.antt =====
-- pkttracer/pt_trace.c: the records of a thread, their cache and their file.
pub mod Defs
pub mod Cache
pub mod Handlers
pub mod Records
pub mod Hardware
pub mod Received
mod Tests
