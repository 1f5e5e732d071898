-- ===== src/Fdw/Imports/Tests.antt =====
-- The import of schemas at concrete inputs, and its theorem applied there.
use Prim.Native.String.{◌++◌ as text_append}
use steampipe_postgres_fdw.Prelude.{
  keep, nat_eq, string_eq, value, fail, String, ◌≡◌, refl, none, some, List, [], ◌∷◌,
}
use steampipe_postgres_fdw.Prelude.GoMap.{GoMap}
use steampipe_postgres_fdw.Proto.{ColumnType, int, string, unsupported, order_none, TableSchema}
use steampipe_postgres_fdw.Fdw.Imports.Defs.{
  Escapes, unsupported_type, schema_failed, get_sql_for_table, import_all, limit_to, except,
  ImportStatement, ListType, schema_to_sql, import_foreign_schema, CommandNames, ImportHub,
}
use steampipe_postgres_fdw.Fdw.Imports.Supported.{Outcome, schema_to_sql-outcome}
use steampipe_postgres_fdw.Fdw.Imports.Selected.{is_wanted, statements, schema_to_sql-statements}

abbrev escape : Escapes
escape = record {
  name = λ s. text_append "\"" (text_append s "\"");
  text = λ s. text_append "'" (text_append s "'");
}

abbrev one_column : ColumnType → TableSchema
one_column t = record {
  columns = record { name = "id"; type = t; sort_order = order_none } ∷ [];
  list_call_key_columns = none;
  list_call_optional_key_columns = none;
  list_call_key_column_list = none;
  get_call_key_column_list = [];
}

abbrev schema : GoMap String TableSchema
schema =
    ("bucket", one_column (unsupported 99))
    ∷ ("host", one_column string)
    ∷ ("user", one_column int)
    ∷ []

abbrev stmt : ListType → List String → ImportStatement
stmt l tables = record {
  remote_schema = "aws";
  local_schema = "aws";
  list_type = l;
  table_list = tables;
}

abbrev host_sql : String
host_sql =
    "CREATE FOREIGN TABLE IF NOT EXISTS \"aws\".\"host\"\n(\n  \"id\" text\n)\nSERVER \"steampipe\" OPTIONS (table 'host')"

host_table : get_sql_for_table escape "host" (one_column string) "aws" "steampipe" ≡ value host_sql
unfolding get_sql_for_table
host_table = refl

limited :
    schema_to_sql escape (stmt limit_to ("host" ∷ [])) (some "steampipe") schema
    ≡ value (host_sql ∷ [])
unfolding schema_to_sql
limited = refl

excepted :
    schema_to_sql escape (stmt except ("bucket" ∷ "user" ∷ [])) (some "steampipe") schema
    ≡ value (host_sql ∷ [])
unfolding schema_to_sql
excepted = refl

-- A column of another type ends the import.
not_imported :
    schema_to_sql escape (stmt import_all []) (some "steampipe") schema
    ≡ fail (unsupported_type (unsupported 99))
unfolding schema_to_sql
not_imported = refl

abbrev names : CommandNames
names = record {
  internal_schema = "internal";
  legacy_command_schema = "command";
  settings = "settings";
  settings_key = "name";
  settings_value = "value";
  scan_metadata = "scan_metadata";
  scan_metadata_summary = "scan_metadata_summary";
  legacy_cache = "cache";
  legacy_cache_operation = "operation";
  legacy_scan_metadata = "scan_metadata";
}

abbrev no_schema : ImportHub
no_schema = record { process_options = λ s. none; get_schema = λ r l. fail "no such connection" }

import_failed :
    import_foreign_schema escape names no_schema (some "steampipe") (stmt import_all [])
    ≡ fail (schema_failed "no such connection")
unfolding import_foreign_schema
import_failed = refl

schema_to_sql-statements_example :
    schema_to_sql escape (stmt limit_to ("user" ∷ "host" ∷ [])) (some "steampipe") schema
    ≡ statements escape
        (stmt limit_to ("user" ∷ "host" ∷ []))
        "steampipe"
        (keep (is_wanted limit_to ("user" ∷ "host" ∷ [])) schema)
schema_to_sql-statements_example =
    schema_to_sql-statements escape (stmt limit_to ("user" ∷ "host" ∷ [])) "steampipe" schema

schema_to_sql-outcome_example :
    Outcome
      (keep (is_wanted except ("host" ∷ [])) schema)
      (schema_to_sql escape (stmt except ("host" ∷ [])) (some "steampipe") schema)
schema_to_sql-outcome_example =
    schema_to_sql-outcome escape (stmt except ("host" ∷ [])) "steampipe" schema
