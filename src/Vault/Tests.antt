-- ===== src/Vault/Tests.antt =====
-- Runs of the vault, and the theorems at concrete states.
mod Allocation
mod Fees
mod HighWater
mod Invariants
mod Liveness
mod Prices
mod Refusals
mod Shares
mod Totals
