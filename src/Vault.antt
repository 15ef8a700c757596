-- ===== src/Vault.antt =====
-- core/vault.rs: the container's operations, by the part of the file that they work on.
pub mod State
pub mod Region
pub mod Storage
pub mod Blocks
pub mod Content
pub mod Files
pub mod Peers
pub mod Lifecycle
pub mod Verify
pub mod Mutation
pub mod ChangeLog
pub mod ChainCount
pub mod Authority
pub mod Chain
pub mod Layout
