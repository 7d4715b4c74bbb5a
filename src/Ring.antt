-- ===== src/Ring.antt =====
-- tools/ringbuffer.c and tools/ringbuffer.h: the byte ring with reserve, copy and publish.
pub mod Defs
pub mod Window
pub mod Copy
pub mod Queue
pub mod Valid
pub mod Append
pub mod Put
pub mod Get
pub mod Shared
pub mod Pending
pub mod Blocks
pub mod Steps
pub mod Loads
pub mod Interleaved
pub mod Kept
pub mod Runs
pub mod Single
mod Tests
mod RunTests
mod SingleTests
pub mod Round
pub mod Create
pub mod Slots
pub mod Numbers
