-- ===== src/Hub/Remote.antt =====
-- hub/hub_remote.go: what the hub does with its connections, and getPathKeys of hub/hub_base.go.
mod Defs
mod Tests
unfoldable pub use Defs.*
