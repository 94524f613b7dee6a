-- ===== src/Vault.antt =====
-- contracts/contracts/tezoro-vault.
mod State
mod Monad
pub mod Keeps
pub mod Store
pub mod Guards
pub mod Assets
pub mod Shares
pub mod Redeem
pub mod Strategies
pub mod Fees
pub mod Admin
pub mod Upgrade
pub mod Views
pub mod Calls
pub mod Refusals
pub mod Soundness
pub mod Invariant
pub mod Pricing
pub mod Access
pub mod Ledger
pub mod Fixture
pub mod Evaluation
mod Conformance
mod Tests
pub use State.*
pub use Monad.*
