-- ===== src/Fdw/Restrictions.antt =====
-- quals.go, conversion_infos.go and the functions of fdw/query.c that they call: how a restriction
-- of Postgres becomes a qual of the plugin.
pub mod Nodes
pub mod Times
pub mod Values
pub mod Defs
pub mod Arrays
pub mod Elements
pub mod Denoted
pub mod Converted
pub mod Meaning
pub mod Members
pub mod Supported
pub mod Operands
pub mod Comparisons
pub mod Columns
pub mod Kept
pub mod Lost
pub mod Counts
pub mod Sample
mod Tests
