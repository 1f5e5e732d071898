-- ===== src/Lib.antt =====
-- Verification of the Steampipe Postgres foreign data wrapper, a Go library that Postgres calls
-- through C to plan and run scans of plugin tables.
--
-- The parts of the program and how they interact. Postgres plans a query: fdw.go asks the hub for
-- the path keys of a table (hub/hub_base.go, types/pathkeys.go). Postgres begins a scan: fdw.go
-- turns the restrictions into quals (quals.go) and asks the hub for an iterator; the hub decides
-- whether the limit of the query may be passed on (hub/hub_base.go, hub/hub_quals.go), makes the
-- limit map of the connections (hub/hub_remote.go, hub/hub_local.go) and a scan iterator
-- (hub/scan_iterator_base.go), and fdw.go saves the execution state behind a token (exec.go).
-- Postgres asks for rows: the first call starts the iterator, whose thread reads the plugin's
-- stream into a channel, from which Next takes its rows. A scan that ends leaves its timing in
-- the hub (hub/query_timing_metadata.go), which command tables show through an in-memory iterator
-- (hub/in_memory_iterator.go). The settings of a session (settings/) decide what a scan asks of
-- the plugin's cache.
--
-- Which file models which part:
--   Prelude    shared helpers: Boolean tests, lists over the native numbers, integers, membership,
--              Go's maps as association lists, and the outcomes of Go code (a panic, an error).
--   Proto      the messages of the plugin SDK that this code reads: key columns, schemas, quals.
--   PathKeys   types/pathkeys.go: KeyColumnsToPathKeys and LegacyKeyColumnsToPathKeys, with the
--              functions they are made of.
--   Hub/Quals  hub/hub_quals.go (buildQualMap) and shouldPushdownLimit of hub/hub_base.go.
--   Hub/Limits buildConnectionLimitMap of both hubs, and the connection data that
--              newExecuteRequest of hub/scan_iterator_base.go makes of it.
--   Hub/Iterator  hub/scan_iterator_base.go: Next, Close, Start, setError, populateRow, and the
--              thread (readThread, readPluginResult) as steps that interleave with the calls of
--              Postgres in any order (Reader); hub/in_memory_iterator.go (InMemory).
--   Hub/Timing hub/query_timing_metadata.go, with AddScanMetadata and executeCommandScan of
--              hub/hub_base.go.
--   Hub/Running  StartScan, EndScan, Abort, addIterator and RemoveIterator of hub/hub_base.go, with
--              the removal that Next asks for.
--   Hub/Factory  hub/connection_factory.go: get, getOrCreate, createConnectionPlugin, add and
--              getSchema.
--   Hub/Remote hub/hub_remote.go: LoadConnectionConfig, getConnectionPlugin, GetIterator,
--              startScanForConnection and GetPathKeys, with getPathKeys of
--              hub/hub_base.go.
--   Hub/Local  hub/hub_local.go: the connections and what the plugin is told of them, GetSchema,
--              GetPathKeys and startScanForConnection.
--   Fdw/Json  jsonValueString of helpers.go, with its regular expression. A text is a list of
--     characters, of which those that the expression names have a constructor.
--   Fdw/Imports  goFdwImportForeignSchema of fdw.go, schema.go, sql/sql.go, and the schemas of the
--     command tables in hub/hub_base.go.
--   Fdw/Planner  goFdwGetRelSize of fdw.go, with getOptions and CStringListToGoArray of helpers.go
--     and GetRelSize of hub/hub_base.go.
--   Fdw/Scans  goFdwGetPathKeys, goFdwBeginForeignScan and goFdwIterateForeignScan of fdw.go.
--   Fdw/Restrictions  quals.go, conversion_infos.go, the functions of fdw/query.c that bring a
--              comparison to its canonical form, and the times of helpers.go. Nodes has the
--              expressions and what is asked of Postgres, Values the conversion of datums, Defs
--              the translation, Meaning the SQL meaning of a restriction and the plugin's filter.
--              Denoted says, without the code, what a value of a qual says of a datum.
--   Fdw/Sessions  exec.go, with node.fdw_state in the begin, rescan, explain and end
--              callbacks of fdw.go.
--   Fdw/Commands  handleCommandInsert of fdw.go.
--   Fdw/Sorting  goFdwCanSort and getSortColumns of fdw.go, and GetSortableFields of
--              hub/hub_remote.go.
--   Cache      settings/ and the cache functions of hub/hub_base.go, hub/hub_remote.go and
--              hub/hub_local.go.
--
-- Conventions. A Go map is an association list, and a loop over one visits it in the order of the
-- list; theorems about such loops hold for every list. A Go integer that cannot leave its range is
-- a natural number or an integer; where it can (the tokens of exec.go, the duration of a ttl) the
-- wrap-around is written out. Code outside the repository (JSON, the clock, the plugin, Steampipe's
-- summaries, `sort.Slice`) is a parameter, with the documented behaviour that is used as a field
-- or a hypothesis. Loops are recursions on their lists. Two recursions have fuel: that of the local
-- hub's cacheEnabled and cacheTTL, which call themselves, where two calls are enough if they
-- return; and the conversion of an array, where the rank that the environment gives the type is
-- enough.
--
-- Not modelled: the C side (fdw/), logging, telemetry and profiling, the generator of the import
-- code (generate/), the templates and scripts, and the SDK. Of the Go code, the creation of the
-- hubs and the other conversions of values between C and Go (helpers.go) are not modelled.
pub mod Prelude
pub mod Proto
pub mod PathKeys
pub mod Cache
pub mod Fdw
pub mod Hub
