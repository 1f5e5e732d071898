-- ===== src/PathKeys.antt =====
-- types/pathkeys.go: the planner's path keys, from the key columns that a plugin table declares.
-- A path key is a set of columns with the number of rows that Postgres is told to expect when
-- quals on all of them are given. The Go `Cost` is a float64; every cost that this file makes is
-- one of 1, 2, 100 and 200, so a cost is a number here.
mod Defs
pub mod Columns
pub mod Distinct
pub mod Coverage
pub mod Costs
mod Tests
unfoldable pub use Defs.*
