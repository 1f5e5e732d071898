-- ===== src/Fdw/Imports.antt =====
-- IMPORT FOREIGN SCHEMA: goFdwImportForeignSchema of fdw.go, schema.go, sql/sql.go, and the schemas
-- of the command tables in hub/hub_base.go.
mod Defs
mod Selected
mod Supported
mod Tests
