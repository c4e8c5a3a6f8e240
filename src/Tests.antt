-- ===== src/Tests.antt =====
-- Runs on concrete inputs, and the properties applied to them.
mod Data
mod Delete
mod Store
mod Policy
mod Verify
mod Capture
mod Cycle
mod Links
mod Downloads
mod Dispatch
mod Gateway
mod Ids
mod Bridge
mod Sync
mod Sends
mod Search
