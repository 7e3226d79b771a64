-- ===== src/Proxychain.antt =====
-- internal/proxychain: the profiles of proxy chains.
pub mod Profiles
pub mod Lookup
mod Tests
