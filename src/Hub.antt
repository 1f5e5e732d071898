-- ===== src/Hub.antt =====
-- The package hub: what stands between Postgres and the plugins.
pub mod Quals
pub mod Factory
pub mod Iterator
pub mod Limits
pub mod Local
pub mod Remote
pub mod Running
pub mod Timing
