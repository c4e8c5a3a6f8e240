-- ===== src/Ids.antt =====
-- ewsmcp/ids.py: the short aliases of raw ids.
pub mod Pattern
pub mod Table
pub mod Aliaser
pub mod Shape
pub mod Found
pub mod Rows
pub mod Aliased
pub mod Rebound
