-- ===== src/Pool.antt =====
-- internal/outbound/pool: the pool of proxies, its circuit breaker and the selection of a member.
pub mod Shared
pub mod Breaker
pub mod Members
pub mod Select
pub mod Balance
pub mod Search
pub mod Picks
pub mod Rounds
pub mod Rotation
pub mod Wrap
pub mod Fairness
pub mod BalanceLaws
pub mod BalanceFinds
pub mod Leak
pub mod Dial
pub mod Traffic
pub mod Accounting
pub mod Admin
pub mod Synced
pub mod Race
pub mod Running
pub mod Fixtures
mod Tests
