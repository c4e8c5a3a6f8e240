-- ===== src/Archive.antt =====
-- ewsmcp/archive: capture, verify, delete, embed and collect garbage, one cycle at a time.
pub mod Policy
pub mod Files
pub mod Delete
pub mod Verify
pub mod Blobs
pub mod Capture
pub mod Embed
pub mod Gc
pub mod Passes
pub mod Runner
