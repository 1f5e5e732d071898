-- ===== src/Hub/Running.antt =====
-- hub/hub_base.go: the table of running iterators, which StartScan, EndScan and Next change and
-- Abort goes through.
mod Defs
mod Abort
mod Removal
mod Failure
mod Tests
