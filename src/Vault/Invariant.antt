-- ===== src/Vault/Invariant.antt =====
-- Every method of contracts/contracts/tezoro-vault/src/lib.rs keeps the storage sound.
pub mod Tokens
pub mod Funds
pub mod Histories
