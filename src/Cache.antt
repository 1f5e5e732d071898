-- ===== src/Cache.antt =====
-- settings/ and the cache functions of both hubs (hub/hub_base.go, hub/hub_remote.go,
-- hub/hub_local.go): what a session sets, and what its scans then ask of the cache.
pub mod Defs
mod Ttl
mod Commands
mod Local
mod Tests
