-- ===== src/Config.antt =====
-- internal/config: the nodes and the listeners of a configuration, and the ports of the nodes.
pub mod Types
pub mod Loops
pub mod Loading
pub mod LoadedPorts
pub mod AssignedPorts
pub mod Reloading
pub mod Restoring
mod Tests
