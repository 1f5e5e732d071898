-- ===== src/Fdw.antt =====
-- The package main: the functions that Postgres calls.
pub mod Sessions
pub mod Commands
pub mod Sorting
pub mod Restrictions
pub mod Scans
pub mod Imports
pub mod Json
pub mod Planner
