-- ===== src/Vault/Pricing.antt =====
-- What shares are worth: the accounting of assets, and the rounding of
-- contracts/contracts/tezoro-vault/src/lib.rs.
pub mod Rounding
pub mod Totals
pub mod Assets
pub mod Payouts
pub mod Price
pub mod Allocation
pub mod Deallocation
