-- ===== src/Store.antt =====
-- src/core/store.rs: the flag bits of an indexed row.
pub mod Flags
pub mod Bits
