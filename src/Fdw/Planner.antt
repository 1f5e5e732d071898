-- ===== src/Fdw/Planner.antt =====
-- goFdwGetRelSize of fdw.go, with getOptions and CStringListToGoArray of helpers.go.
mod Defs
mod Columns
mod Tests
