-- ===== src/Blend.antt =====
-- contracts/contracts/blend-strategy, the adapter to a Blend lending pool.
pub mod State
pub mod Pool
pub mod Quotes
pub mod Methods
pub mod Admin
pub mod Funds
pub mod Supply
pub mod Timelock
pub mod Emergency
pub mod Health
pub mod Calls
pub mod Invariant
pub mod Views
mod Conformance
mod Tests
