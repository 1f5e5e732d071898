-- ===== src/Fdw/Scans.antt =====
-- The planner and scan callbacks of fdw.go, over the hub and the iterators.
pub mod Defs
pub mod Limits
pub mod Rows
mod Tests
