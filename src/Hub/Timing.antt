-- ===== src/Hub/Timing.antt =====
-- hub/query_timing_metadata.go, with `AddScanMetadata` and `executeCommandScan` of
-- hub/hub_base.go: the timing of the scans of the last query, and the tables that read it.
mod Defs
mod Sorting
mod Stale
mod Rows
mod OneQuery
pub mod Tables
pub mod Orphans
mod Tests
pub mod Slowest
unfoldable pub use Defs.*
