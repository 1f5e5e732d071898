-- ===== src/Hub/Factory.antt =====
-- hub/connection_factory.go: the connection plugins that the remote hub has created.
pub mod Defs
mod Reuse
mod Schemas
mod Tests
