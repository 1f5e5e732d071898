-- ===== src/Fdw/Imports/Defs.antt =====
-- sql/sql.go, schema.go, goFdwImportForeignSchema of fdw.go, and GetSettingsSchema and
-- GetLegacySettingsSchema of hub/hub_base.go.
use Prim.Native.String.{◌++◌ as text_append}
use steampipe_postgres_fdw.Prelude.{
  if◌then◌else◌, ◌==◌, nat_eq, string_eq, contains, Result, value, fail, String, Bool, true, false,
  not, Option, none, some, List, [], ◌∷◌, ◌++◌,
}
use steampipe_postgres_fdw.Prelude.GoMap.{GoMap}
use steampipe_postgres_fdw.Proto.{
  ColumnType, bool, int, double, string, json, datetime, ipaddr, cidr, timestamp, inet, ltree,
  unsupported, ColumnDefinition, order_none, TableSchema, Schema,
}

-- A text from its parts.
unfoldable pub concat : List String → String
concat [] = ""
concat (s ∷ ss) = text_append s (concat ss)

-- strings.Join
unfoldable pub join : String → List String → String
join sep [] = ""
join sep (s ∷ []) = s
join sep (s ∷ t ∷ ss) = text_append s (text_append sep (join sep (t ∷ ss)))

unfoldable pub sql_type_for_column_type : ColumnType → Option String
sql_type_for_column_type bool = some "bool"
sql_type_for_column_type int = some "bigint"
sql_type_for_column_type double = some "double precision"
sql_type_for_column_type string = some "text"
sql_type_for_column_type ipaddr = some "inet"
sql_type_for_column_type inet = some "inet"
sql_type_for_column_type cidr = some "cidr"
sql_type_for_column_type json = some "jsonb"
sql_type_for_column_type datetime = some "timestamptz"
sql_type_for_column_type timestamp = some "timestamptz"
sql_type_for_column_type ltree = some "ltree"
sql_type_for_column_type (unsupported n) = none

-- db_common.PgEscapeName and PgEscapeString.
pub record Escapes : Type 0 where
  pub name : String → String
  pub text : String → String

pub data ImportError : Type 0 where
  unsupported_type : ColumnType → ImportError
  options_failed : String → ImportError
  schema_failed : String → ImportError

abbrev pub on_value {ℓ} :
    {A : Type 0} {B : Type ℓ}
    → Result ImportError A
    → (A → Result ImportError B)
    → Result ImportError B
on_value (value a) f = f a
on_value (fail e) f = fail e

abbrev pub is_empty {ℓ} : {A : Type ℓ} → List A → Bool
is_empty [] = true
is_empty (x ∷ xs) = false

module _ (escape : Escapes) where
  abbrev pub column_text : ColumnDefinition → Bool → Option String → Result ImportError String
  column_text c is_last none = fail (unsupported_type c.type)
  column_text c is_last (some t) =
      value (concat (escape.name c.name ∷ " " ∷ t ∷ (if is_last then "" else ",") ∷ []))

  -- The loop over the columns.
  unfoldable pub column_lines : List ColumnDefinition → Result ImportError (List String)
  unfolding sql_type_for_column_type
  column_lines [] = value []
  column_lines (c ∷ cs) =
      on_value (column_text c (is_empty cs) (sql_type_for_column_type c.type))
        (λ line. on_value (column_lines cs) (λ lines. value (line ∷ lines)))

  unfoldable pub statement : (table local_schema server_name : String) → List String → String
  unfolding concat join
  statement table local_schema server_name lines = concat (
      "CREATE FOREIGN TABLE IF NOT EXISTS "
      ∷ escape.name local_schema
      ∷ "."
      ∷ escape.name table
      ∷ "\n(\n  "
      ∷ join "\n  " lines
      ∷ "\n)\nSERVER "
      ∷ escape.name server_name
      ∷ " OPTIONS (table "
      ∷ escape.text table
      ∷ ")"
      ∷ [])

  -- GetSQLForTable
  unfoldable pub get_sql_for_table :
      (table : String)
      → TableSchema
      → (local_schema server_name : String) → Result ImportError String
  unfolding column_lines statement
  get_sql_for_table table t local_schema server_name =
      on_value (column_lines t.columns)
        (λ lines. value (statement table local_schema server_name lines))

-- The list_type of the statement.
pub data ListType : Type 0 where
  import_all limit_to except : ListType

-- Whether the loop passes over a table.
unfoldable pub is_skipped : ListType → List String → String → Bool
unfolding contains
is_skipped import_all tables table = false
is_skipped limit_to tables table = not (contains tables table)
is_skipped except tables table = contains tables table

-- ImportForeignSchemaStmt
pub record ImportStatement : Type 0 where
  pub remote_schema : String
  pub local_schema : String
  pub list_type : ListType
  pub table_list : List String

module _ (escape : Escapes) (stmt : ImportStatement) where
  -- The loop of SchemaToSql; FdwError ends it.
  unfoldable pub schema_loop :
      (server_name : String)
      → GoMap String TableSchema
      → List String
      → Result ImportError (List String)
  unfolding is_skipped get_sql_for_table
  schema_loop server_name [] commands = value commands
  schema_loop server_name ((table, t) ∷ schema) commands =
      let skip = schema_loop server_name schema commands in
      let add =
        on_value (get_sql_for_table escape table t stmt.local_schema server_name)
          (λ sql. schema_loop server_name schema (commands ++ sql ∷ [])) in
      if is_skipped stmt.list_type stmt.table_list table then skip else add

  -- SchemaToSql; the server may not be there.
  unfoldable pub schema_to_sql :
      Option String → GoMap String TableSchema → Result ImportError (List String)
  unfolding schema_loop
  schema_to_sql none schema = value []
  schema_to_sql (some server_name) schema = schema_loop server_name schema []

-- The names of the command schemas and tables.
pub record CommandNames : Type 0 where
  pub internal_schema : String
  pub legacy_command_schema : String
  pub settings : String
  pub settings_key : String
  pub settings_value : String
  pub scan_metadata : String
  pub scan_metadata_summary : String
  pub legacy_cache : String
  pub legacy_cache_operation : String
  pub legacy_scan_metadata : String

abbrev column_def : String → ColumnType → ColumnDefinition
column_def name type = record { name = name; type = type; sort_order = order_none }

abbrev table_def : List ColumnDefinition → TableSchema
table_def columns = record {
  columns = columns;
  list_call_key_columns = none;
  list_call_optional_key_columns = none;
  list_call_key_column_list = none;
  get_call_key_column_list = [];
}

unfoldable pub get_settings_schema : CommandNames → GoMap String TableSchema
get_settings_schema names =
    (
      names.settings,
      table_def
          (column_def names.settings_key string ∷ column_def names.settings_value string ∷ []),
    )
    ∷ (
      names.scan_metadata,
      table_def (
          column_def "connection" string
          ∷ column_def "table" string
          ∷ column_def "cache_hit" bool
          ∷ column_def "rows_fetched" int
          ∷ column_def "hydrate_calls" int
          ∷ column_def "start_time" timestamp
          ∷ column_def "duration_ms" int
          ∷ column_def "columns" json
          ∷ column_def "limit" int
          ∷ column_def "quals" json
          ∷ []),
    )
    ∷ (
      names.scan_metadata_summary,
      table_def (
          column_def "cached_rows_fetched" int
          ∷ column_def "uncached_rows_fetched" int
          ∷ column_def "hydrate_calls" int
          ∷ column_def "duration_ms" int
          ∷ column_def "scan_count" int
          ∷ column_def "connection_count" int
          ∷ []),
    )
    ∷ []

unfoldable pub get_legacy_settings_schema : CommandNames → GoMap String TableSchema
get_legacy_settings_schema names =
    (names.legacy_cache, table_def (column_def names.legacy_cache_operation string ∷ []))
    ∷ (
      names.legacy_scan_metadata,
      table_def (
          column_def "id" int
          ∷ column_def "table" string
          ∷ column_def "cache_hit" bool
          ∷ column_def "rows_fetched" int
          ∷ column_def "hydrate_calls" int
          ∷ column_def "start_time" timestamp
          ∷ column_def "duration" double
          ∷ column_def "columns" json
          ∷ column_def "limit" int
          ∷ column_def "quals" string
          ∷ []),
    )
    ∷ []

-- What the hub answers: ProcessImportForeignSchemaOptions, with its error, and then GetSchema.
pub record ImportHub : Type 0 where
  pub process_options : (local_schema : String) → Option String
  pub get_schema : (remote_schema local_schema : String) → Result String Schema

module _ (escape : Escapes) (names : CommandNames) (hub : ImportHub) (server : Option String) where
  unfoldable pub import_tables :
      ImportStatement → Result String Schema → Result ImportError (List String)
  unfolding schema_to_sql
  import_tables stmt (fail e) = fail (schema_failed e)
  import_tables stmt (value s) = schema_to_sql escape stmt server s.tables

  unfoldable pub after_options : ImportStatement → Option String → Result ImportError (List String)
  unfolding import_tables
  after_options stmt (some e) = fail (options_failed e)
  after_options stmt none = import_tables stmt (hub.get_schema stmt.remote_schema stmt.local_schema)

  -- goFdwImportForeignSchema
  unfoldable pub import_foreign_schema : ImportStatement → Result ImportError (List String)
  unfolding schema_to_sql after_options
  import_foreign_schema stmt =
      if stmt.remote_schema == names.internal_schema
      then schema_to_sql escape stmt server (get_settings_schema names)
      else if stmt.remote_schema == names.legacy_command_schema
      then schema_to_sql escape stmt server (get_legacy_settings_schema names)
      else after_options stmt (hub.process_options stmt.local_schema)
