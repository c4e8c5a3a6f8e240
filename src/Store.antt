-- ===== src/Store.antt =====
-- ewsmcp/cache/store.py: the tables, and the writers that the sync engine and the archive use.
pub mod Rows
pub mod Mirror
pub mod Archive
pub mod Writes
pub mod Survival
pub mod Kept
pub mod Consistent
pub mod Chunks
