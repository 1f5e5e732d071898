-- ===== src/Hub/Iterator.antt =====
-- hub/scan_iterator_base.go, hub/in_memory_iterator.go, hub/query_status.go: the iterators that a
-- scan reads its rows from.
pub mod Defs
mod Reader
pub mod Calls
mod Channel
mod Progress
pub mod InMemory
mod Order
mod Delivery
mod Tests
