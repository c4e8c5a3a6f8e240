-- ===== src/Bridge.antt =====
-- ewsmcp/bridge: mail in the order of arrival, for a consumer outside.
pub mod App
pub mod Mapping
pub mod Arrival
