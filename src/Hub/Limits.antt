-- ===== src/Hub/Limits.antt =====
-- `buildConnectionLimitMap` of hub/hub_remote.go and hub/hub_local.go, with `newExecuteRequest`
-- of hub/scan_iterator_base.go: the limit that each connection of a scan is given.
pub mod Defs
pub mod Requests
pub mod Handled
mod Tests
