-- ===== src/Fdw/Json.antt =====
-- jsonValueString of helpers.go.
pub mod Defs
mod Tokens
mod Cleaned
mod Shielded
mod Tests
