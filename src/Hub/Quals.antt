-- ===== src/Hub/Quals.antt =====
-- hub/hub_quals.go, and the test of hub/hub_base.go that decides whether the limit of a query is
-- passed on to the plugin.
mod Defs
pub mod Grouping
pub mod Pushdown
mod Tests
unfoldable pub use Defs.*
