-- ===== src/Vault/Access.antt =====
-- Who may call what, for the methods of contracts/contracts/tezoro-vault/src/lib.rs.
pub mod Roles
pub mod Succession
