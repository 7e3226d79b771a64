-- ===== src/Monitor.antt =====
-- internal/monitor: the per-node statistics, their registry and the log buffer.
pub mod Entry
pub mod Order
pub mod Manager
pub mod Timeline
pub mod Sorted
pub mod Health
pub mod LogBuffer
mod Tests
