-- ===== src/Files.antt =====
-- Files that pass through ewsd by link, and the tokens that stand for a permission.
pub mod Uploads
pub mod Confirm
pub mod Downloads
