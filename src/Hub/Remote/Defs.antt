-- ===== src/Hub/Remote/Defs.antt =====
-- hub/hub_remote.go: the connection config, getConnectionPlugin, GetIterator,
-- startScanForConnection, GetPathKeys and GetSchema; getPathKeys of hub_base.go.
use steampipe_postgres_fdw.Prelude.{
  if◌then◌else◌, length, ◌==◌, nat_eq, string_eq, Go, ok, panic, ◌>>=◌, Result, value, fail, ℕ,
  String, Bool, ◌||◌, Option, none, some, List, [], ◌∷◌,
}
use steampipe_postgres_fdw.Prelude.Int.{ℤ}
use steampipe_postgres_fdw.Prelude.GoMap.{GoMap, lookup}
use steampipe_postgres_fdw.Proto.{
  ColumnDefinition, TableSchema, Schema, Qual, KeyColumnsSet, KeyColumn,
}
use steampipe_postgres_fdw.PathKeys.{
  PathKey, key_columns_to_path_keys, legacy_key_columns_to_path_keys,
}
use steampipe_postgres_fdw.Fdw.Sorting.Defs.{SortColumn}
use steampipe_postgres_fdw.Hub.Quals.{build_qual_map}
use steampipe_postgres_fdw.Hub.Factory.Defs.{
  ConnectionPlugin, Factory, FactoryError, Steampipe, get_or_create,
}
use steampipe_postgres_fdw.Hub.Limits.Defs.{build_connection_limit_map}

-- modconfig.Connection, with what this code reads.
pub record Connection : Type 0 where
  pub plugin : String
  pub is_aggregator : Bool
  pub resolved_names : List String

-- steampipeconfig.SteampipeConfig behind the pointer GlobalConfig.
pub record GlobalConfig : Type 0 where
  pub address : ℕ
  pub connections : GoMap String Connection

pub data RemoteError : Type 0 where
  config_failed : String → RemoteError
  no_connection_config : String → RemoteError
  plugin_failed : FactoryError → RemoteError
  schema_failed : String → RemoteError
  empty_aggregator : String → RemoteError
  no_table_schema : String → String → RemoteError
  command_failed : String → RemoteError

-- LoadConnectionConfig: what Steampipe loads is a new object; `changed` is the pointer comparison.
unfoldable pub load_connection_config :
    Result String GlobalConfig → GlobalConfig → Result RemoteError Bool × GlobalConfig
load_connection_config (fail e) old = (fail (config_failed e), old)
load_connection_config (value new) old = (value (old.address == new.address), new)

-- What the hub is asked to scan: the arguments of newScanIterator.
pub record ScanRequest : Type 0 where
  pub connection_name : String
  pub table : String
  pub connection_limit_map : GoMap String ℤ
  pub qual_map : GoMap String (List Qual)
  pub columns : List String
  pub limit : ℤ
  pub sort_order : List SortColumn
  pub query_timestamp : ℤ

unfoldable pub column_names : List ColumnDefinition → List String
column_names [] = []
column_names (c ∷ cs) = c.name ∷ column_names cs

-- The choice between the legacy interface and the newer one; with neither there are no path keys.
unfoldable pub path_keys_of :
    Option KeyColumnsSet → Option (List KeyColumn) → TableSchema → List String → Go (List PathKey)
path_keys_of (some k) list t all =
    ok (legacy_key_columns_to_path_keys (some k) t.list_call_optional_key_columns all)
path_keys_of none (some ks) t all = key_columns_to_path_keys ks all
path_keys_of none none t all = ok []

unfoldable pub table_path_keys :
    (connection table : String) → Option TableSchema → Go (Result RemoteError (List PathKey))
unfolding path_keys_of column_names
table_path_keys connection table none = ok (fail (no_table_schema connection table))
table_path_keys connection table (some t) =
    path_keys_of t.list_call_key_columns t.list_call_key_column_list t (column_names t.columns)
    >>= λ keys. ok (value keys)

-- hubBase.getPathKeys
unfoldable pub path_keys :
    Schema → (connection table : String) → Go (Result RemoteError (List PathKey))
unfolding table_path_keys
path_keys schema connection table = table_path_keys connection table (lookup table schema.tables)

-- Two internal schemas, and executeCommandScan; `schema_of` is ConnectionPlugin.GetSchema.
pub record RemoteEnvironment : Type 0 where
  pub steampipe : Steampipe
  pub schema_of : ConnectionPlugin → String → Result String Schema
  pub internal_schema : String
  pub legacy_command_schema : String

-- What GetIterator comes to: a scan of the plugin, a command table, or an error.
pub data Got : Type 0 where
  plugin_scan : ScanRequest → Got
  command_scan : (connection table : String) → Got
  got_error : RemoteError → Got

module _ (env : RemoteEnvironment) (config : GlobalConfig) where
  unfoldable pub plugin_result :
      Result FactoryError ConnectionPlugin × Factory → Result RemoteError ConnectionPlugin × Factory
  plugin_result (value c, f) = (value c, f)
  plugin_result (fail e, f) = (fail (plugin_failed e), f)

  unfoldable pub plugin_of_config :
      String → Option Connection → Factory → Result RemoteError ConnectionPlugin × Factory
  unfolding plugin_result
  plugin_of_config name none f = (fail (no_connection_config name), f)
  plugin_of_config name (some c) f = plugin_result (get_or_create env.steampipe c.plugin name f)

  -- getConnectionPlugin
  unfoldable pub get_connection_plugin :
      String → Factory → Result RemoteError ConnectionPlugin × Factory
  unfolding plugin_of_config
  get_connection_plugin name f = plugin_of_config name (lookup name config.connections) f

  unfoldable pub path_keys_of_schema :
      (connection table : String) → Result String Schema → Go (Result RemoteError (List PathKey))
  unfolding path_keys
  path_keys_of_schema connection table (fail e) = ok (fail (schema_failed e))
  path_keys_of_schema connection table (value schema) = path_keys schema connection table

  unfoldable pub path_keys_of_plugin :
      (connection table : String)
      → Result RemoteError ConnectionPlugin
      → Go (Result RemoteError (List PathKey))
  unfolding path_keys_of_schema
  path_keys_of_plugin connection table (fail e) = ok (fail e)
  path_keys_of_plugin connection table (value p) =
      path_keys_of_schema connection table (env.schema_of p connection)

  -- GetPathKeys
  unfoldable pub get_path_keys :
      (connection table : String) → Factory → Go (Result RemoteError (List PathKey)) × Factory
  unfolding get_connection_plugin path_keys_of_plugin
  get_path_keys connection table f =
      let p = get_connection_plugin connection f in (path_keys_of_plugin connection table p.0, p.1)

  -- The connections that are scanned: an aggregator stands for others.
  unfoldable pub scanned_names : String → Connection → Result RemoteError (List String)
  scanned_names name c =
      if c.is_aggregator
      then (if length c.resolved_names == 0
          then fail (empty_aggregator name)
          else value c.resolved_names)
      else value (name ∷ [])

  unfoldable pub scan_with_limits : ScanRequest → Go (Result String (GoMap String ℤ)) → Go Got
  scan_with_limits r panic = panic
  scan_with_limits r (ok (fail e)) = ok (got_error (schema_failed e))
  scan_with_limits r (ok (value limits)) =
      ok (plugin_scan (record r { connection_limit_map = limits }))

  unfoldable pub scan_of_names :
      ScanRequest → ℕ → ConnectionPlugin → Result RemoteError (List String) → Go Got
  unfolding scan_with_limits
  scan_of_names r unhandled p (fail e) = ok (got_error e)
  scan_of_names r unhandled p (value names) =
      scan_with_limits r
        (build_connection_limit_map (env.schema_of p) r.table r.qual_map unhandled names r.limit)

  unfoldable pub scan_of_plugin :
      ScanRequest → ℕ → Result RemoteError ConnectionPlugin → Option Connection → Go Got
  unfolding scan_of_names scanned_names
  scan_of_plugin r unhandled (fail e) c = ok (got_error e)
  scan_of_plugin r unhandled (value p) none =
      ok (got_error (no_connection_config r.connection_name))
  scan_of_plugin r unhandled (value p) (some c) =
      scan_of_names r unhandled p (scanned_names r.connection_name c)

  -- startScanForConnection
  unfoldable pub start_scan_for_connection : ScanRequest → ℕ → Factory → Go Got × Factory
  unfolding scan_of_plugin get_connection_plugin
  start_scan_for_connection r unhandled f =
      let p = get_connection_plugin r.connection_name f in
      (scan_of_plugin r unhandled p.0 (lookup r.connection_name config.connections), p.1)

  -- GetIterator; the result of executeCommandScan is in the model of the timing metadata.
  unfoldable pub get_iterator :
      (connection table : String)
      → List (Option Qual)
      → (unhandled : ℕ) → List String
      → ℤ
      → List SortColumn
      → ℤ
      → Factory
      → Go Got × Factory
  unfolding start_scan_for_connection
  get_iterator connection table quals unhandled columns limit sort_order timestamp f =
      if connection == env.internal_schema || connection == env.legacy_command_schema
      then (ok (command_scan connection table), f)
      else start_scan_for_connection
          (record {
            connection_name = connection;
            table = table;
            connection_limit_map = [];
            qual_map = build_qual_map quals;
            columns = columns;
            limit = limit;
            sort_order = sort_order;
            query_timestamp = timestamp;
          })
          unhandled f
