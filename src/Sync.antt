-- ===== src/Sync.antt =====
-- ewsmcp/cache/sync.py: the engine that keeps the mirror of the mailbox.
pub mod Items
pub mod Folder
pub mod Hierarchy
pub mod Engine
