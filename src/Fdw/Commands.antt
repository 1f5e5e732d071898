-- ===== src/Fdw/Commands.antt =====
-- handleCommandInsert of fdw.go: an insert into the tables of settings and of cache commands.
mod Defs
mod Inserts
mod Tests
