-- ===== src/Vault/ChainCount.antt =====
-- core/vault.rs: how the mutations count the chain's records.
pub mod Rules
pub mod Methods
pub mod Access
pub mod Mutation
pub mod Reads
pub mod Verify
