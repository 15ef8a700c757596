-- ===== src/Net.antt =====
-- net/: the patch journal, the sync messages, the handshake with its channel, and the sync itself.
pub mod Journal
pub mod Protocol
pub mod Handshake
pub mod Sync
pub mod Invite
