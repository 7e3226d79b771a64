-- ===== src/Boxmgr.antt =====
-- internal/boxmgr: the nodes of the running configuration and their ports.
pub mod Ports
pub mod Assignment
pub mod Result
pub mod Nodes
pub mod Naming
pub mod Locating
pub mod Preparing
pub mod Kept
pub mod Reordering
pub mod Renumbering
pub mod Commands
pub mod Conflicts
mod Tests
