-- ===== src/Examples.antt =====
-- Concrete runs, and the theorems at concrete inputs.
pub mod Devices
pub mod Files
mod Records
mod Writing
mod Reading
mod Locations
mod Logs
mod Pools
mod Paths
mod Recovery
mod Pairs
mod Streams
