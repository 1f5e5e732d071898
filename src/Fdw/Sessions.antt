-- ===== src/Fdw/Sessions.antt =====
-- exec.go: the execution states that Go keeps for the scans of Postgres, behind tokens in C memory.
mod Defs
mod Tokens
mod Rescan
mod Explained
mod Tests
