-- ===== src/Dump.antt =====
-- tools/cmd_dump.c: the command that joins the records of the trace files by probe.
pub mod Defs
pub mod Records
pub mod Adding
pub mod Output
pub mod Probes
pub mod Start
pub mod Command
pub mod Counts
pub mod Loading
pub mod Closing
mod CommandTests
mod Tests
