-- ===== src/Vault/ChangeLog.antt =====
-- core/vault.rs: the change log against what the methods write to the file.
pub mod Rules
pub mod Mutations
pub mod Access
pub mod Replica
pub mod Reads
