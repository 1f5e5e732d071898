-- ===== src/Prelude/GoMap.antt =====
-- Go's `map[K]V`.
mod Defs
mod Keys
mod Lookups
unfoldable pub use Defs.*
unfoldable pub use Keys.*
pub use Lookups.*
