-- ===== src/Hub/Local/Defs.antt =====
-- hub/hub_local.go: SetConnectionConfig, UpdateConnectionConfig, ProcessImportForeignSchemaOptions,
-- GetSchema, GetPathKeys, startScanForConnection and GetIterator of the local hub. The map holds
-- pointers, and a write through one is a write to the entry of its key.
use steampipe_postgres_fdw.Prelude.{
  if◌then◌else◌, ◌==◌, nat_eq, string_eq, Go, ok, Result, value, fail, ℕ, String, Bool, false,
  Option, none, some, List, [], ◌∷◌, ◌++◌,
}
use steampipe_postgres_fdw.Prelude.Int.{ℤ}
use steampipe_postgres_fdw.Prelude.GoMap.{GoMap, lookup, insert}
use steampipe_postgres_fdw.Proto.{Schema}
use steampipe_postgres_fdw.PathKeys.{PathKey}
use steampipe_postgres_fdw.Hub.Limits.Defs.{build_local_limit_map}
use steampipe_postgres_fdw.Hub.Remote.{RemoteError, schema_failed, ScanRequest, path_keys}

-- proto.ConnectionConfig; the plugin and its short name are those of the hub.
pub record ConnectionConfig : Type 0 where
  pub connection : String
  pub config : String

-- What the hub asks of its plugin, in order.
pub data Request : Type 0 where
  set_all : List ConnectionConfig → Request
  update : List ConnectionConfig → Request

-- The connections, and the requests that the plugin was sent.
pub record LocalHub : Type 0 where
  pub connections : GoMap String ConnectionConfig
  pub sent : List Request

abbrev pub map_values : GoMap String ConnectionConfig → List ConnectionConfig
map_values [] = []
map_values ((name, c) ∷ m) = c ∷ map_values m

abbrev pub config_of : (connection config : String) → ConnectionConfig
config_of connection config = record { connection = connection; config = config }

abbrev pub option_text : Option String → String
option_text none = ""
option_text (some s) = s

-- The answer of the plugin to a request, an error or none.
module _ (answer : Request → Option String) where
  unfoldable pub send : Request → LocalHub → Option String × LocalHub
  send r l = (answer r, record l { sent = l.sent ++ r ∷ [] })

  unfoldable pub set_connection_config :
      (connection config : String) → LocalHub → Option String × LocalHub
  unfolding send
  set_connection_config connection config l =
      let after = record l {
        connections = insert connection (config_of connection config) l.connections;
      } in
      send (set_all (map_values after.connections)) after

  -- if conn, ok := l.connections[connectionName]; ok && conn.Config == configString
  abbrev pub is_unchanged : Option ConnectionConfig → String → Bool
  is_unchanged none config = false
  is_unchanged (some c) config = c.config == config

  unfoldable pub update_connection_config :
      (connection config : String) → LocalHub → Option String × LocalHub
  unfolding send
  update_connection_config connection config l =
      if is_unchanged (lookup connection l.connections) config
      then (none, l)
      else send (update (config_of connection config ∷ []))
          (record l { connections = insert connection (config_of connection config) l.connections })

  -- connectionConfig.Config = config, through the pointer that the map holds
  unfoldable pub write_config :
      (connection config : String) → ConnectionConfig → LocalHub → LocalHub
  write_config connection config c l = record l {
    connections = insert connection (record c { config = config }) l.connections;
  }

  unfoldable pub process_options :
      (connection config : String) → Option ConnectionConfig → LocalHub → Option String × LocalHub
  unfolding write_config update_connection_config set_connection_config
  process_options connection config (some c) l =
      update_connection_config connection config (write_config connection config c l)
  process_options connection config none l = set_connection_config connection config l

  -- ProcessImportForeignSchemaOptions: a missing option is "".
  unfoldable pub process_import_foreign_schema_options :
      GoMap String String → String → LocalHub → Option String × LocalHub
  unfolding process_options
  process_import_foreign_schema_options opts connection l =
      process_options connection (option_text (lookup "config" opts))
        (lookup connection l.connections) l

  -- The plugin's GetSchema after the requests that it was sent.
  module _ (schema_after : List Request → String → Result String Schema) where
    unfoldable pub retried : String → Option String × LocalHub → Result String Schema × LocalHub
    retried connection (some e, l) = (fail e, l)
    retried connection (none, l) = (schema_after l.sent connection, l)

    unfoldable pub schema_or_retry :
        String → Result String Schema → LocalHub → Result String Schema × LocalHub
    unfolding retried set_connection_config
    schema_or_retry connection (value s) l = (value s, l)
    schema_or_retry connection (fail e) l =
        retried connection (set_connection_config connection "" l)

    -- GetSchema: after an error the connection is set with an empty config, and asked for again.
    unfoldable pub get_schema : String → LocalHub → Result String Schema × LocalHub
    unfolding schema_or_retry
    get_schema connection l = schema_or_retry connection (schema_after l.sent connection) l

    unfoldable pub path_keys_of_schema :
        (connection table : String) → Result String Schema → Go (Result RemoteError (List PathKey))
    path_keys_of_schema connection table (fail e) = ok (fail (schema_failed e))
    path_keys_of_schema connection table (value s) = path_keys s connection table

    -- GetPathKeys
    unfoldable pub get_path_keys :
        (connection table : String) → LocalHub → Go (Result RemoteError (List PathKey)) × LocalHub
    unfolding get_schema path_keys_of_schema
    get_path_keys connection table l =
        let got = get_schema connection l in (path_keys_of_schema connection table got.0, got.1)

    unfoldable pub with_limits :
        ScanRequest → Result String (GoMap String ℤ) → Result String ScanRequest
    with_limits r (fail e) = fail e
    with_limits r (value limits) = value (record r { connection_limit_map = limits })

    -- startScanForConnection, whose limit map asks for the schema.
    unfoldable pub start_scan_for_connection :
        ScanRequest → ℕ → LocalHub → Result String ScanRequest × LocalHub
    unfolding get_schema with_limits
    start_scan_for_connection r unhandled l =
        let got = get_schema r.connection_name l in
        (
          with_limits r (
              build_local_limit_map (λ c. got.0) r.connection_name r.table r.qual_map unhandled
                r.limit),
          got.1,
        )
