-- ===== src/Fdw/Sorting.antt =====
-- goFdwCanSort and getSortColumns of fdw.go, with GetSortableFields of hub/hub_remote.go: which part
-- of a sort is left to the plugin.
pub mod Defs
mod Pushdown
mod Tests
