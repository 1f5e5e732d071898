-- ===== src/Hub/Local.antt =====
-- hub/hub_local.go: the connections of the local hub and what its plugin is told of them.
mod Defs
mod Sync
mod Tests
