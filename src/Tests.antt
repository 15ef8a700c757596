-- ===== src/Tests.antt =====
-- The theorems at concrete inputs, over one small vault and a toy cryptography.
pub mod Toy
pub mod Formats
pub mod Keys
pub mod Vaults
pub mod Peers
pub mod Serving
pub mod Reconnect
pub mod Terminal
