-- ===== src/Format.antt =====
-- core/format.rs: the records of a `.rvlt` container and their bytes.
pub mod Cursor
pub mod FileEntry
pub mod RecipientSlot
pub mod ChainRecord
pub mod Header
