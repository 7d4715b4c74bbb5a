-- ===== src/Port.antt =====
-- src/port.c: the table of the ports, and the start and close of the devices.
pub mod Defs
pub mod Mask
pub mod Devices
pub mod Running
pub mod Stopped
pub mod Pools
pub mod Setup
pub mod Tracked
pub mod Owned
pub mod Released
mod Tests
