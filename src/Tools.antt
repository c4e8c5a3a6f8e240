-- ===== src/Tools.antt =====
-- ewsmcp/tools: the dispatcher that every tool call goes through, and tools behind it.
pub mod Errors
pub mod Arguments
pub mod Calls
pub mod Dispatch
pub mod Sends
