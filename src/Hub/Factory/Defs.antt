-- ===== src/Hub/Factory/Defs.antt =====
-- hub/connection_factory.go: the map of connection plugins, and how one is got or created. The lock
-- is taken and released within one operation, so an operation is one step.
use steampipe_postgres_fdw.Prelude.{
  if◌then◌else◌, nat_eq, string_eq, Result, value, fail, ℕ, String, Bool, not, Option, none, some,
  [], ◌∷◌,
}
use steampipe_postgres_fdw.Prelude.GoMap.{GoMap, lookup, insert}
use steampipe_postgres_fdw.Proto.{Schema}

unfoldable pub append : String → String → String
append String.[] t = t
append (String.◌∷◌ c s) t = String.◌∷◌ c (append s t)

abbrev pub key_separator : String
key_separator = "\\\\"

unfoldable pub connection_plugin_key : (plugin_fqn connection_name : String) → String
unfolding append
connection_plugin_key plugin_fqn connection_name =
    append plugin_fqn (append key_separator connection_name)

-- steampipeconfig.ConnectionPlugin, with what this code reads: its client, as the number by which
-- the environment knows it, and its connections with their schemas.
pub record ConnectionPlugin : Type 0 where
  pub client : ℕ
  pub plugin_name : String
  pub connection_map : GoMap String Schema

pub data FactoryError : Type 0 where
  reload_failed : String → FactoryError
  no_config : String → FactoryError
  create_failed : String → FactoryError
  -- the warnings, or the message that the connection is not in the map
  not_created : String → FactoryError

abbrev pub Factory : Type 0
Factory = GoMap String ConnectionPlugin

-- What Steampipe answers while one operation runs: the connections that are configured, those
-- after a reload, the plugins that CreateConnectionPlugins makes for a connection, by connection,
-- and the clients that have exited.
pub record Steampipe : Type 0 where
  pub configured : String → Bool
  pub reload : Result String (String → Bool)
  pub create_plugins : String → Result String (GoMap String ConnectionPlugin)
  pub exited : ℕ → Bool

-- add, the loop: entries that are there are left as they are.
unfoldable pub add_connections : ConnectionPlugin → GoMap String Schema → Factory → Factory
add_connections p [] f = f
add_connections p ((c, schema) ∷ rest) f = elim (lookup (connection_plugin_key p.plugin_name c) f) [
  | some old ↦ add_connections p rest f
  | none ↦ add_connections p rest (insert (connection_plugin_key p.plugin_name c) p f)
]

unfoldable pub add : ConnectionPlugin → Factory → Factory
unfolding add_connections
add p f = add_connections p p.connection_map f

module _ (sp : Steampipe) where
  unfoldable pub if_running : Option ConnectionPlugin → Option ConnectionPlugin
  if_running none = none
  if_running (some c) = if not (sp.exited c.client) then some c else none

  unfoldable pub get : (plugin_fqn connection_name : String) → Factory → Option ConnectionPlugin
  unfolding if_running
  get plugin_fqn connection_name f =
      if_running (lookup (connection_plugin_key plugin_fqn connection_name) f)

  -- The config of the connection, after a reload if it is not there.
  unfoldable pub after_reload : String → Result String (String → Bool) → Result FactoryError String
  after_reload name (fail e) = fail (reload_failed e)
  after_reload name (value configured) =
      if configured name then value name else fail (no_config name)

  unfoldable pub connection_config : String → Result FactoryError String
  unfolding after_reload
  connection_config name = if sp.configured name then value name else after_reload name sp.reload

  unfoldable pub add_created :
      String → Option ConnectionPlugin → Factory → Result FactoryError ConnectionPlugin × Factory
  add_created name none f = (fail (not_created name), f)
  add_created name (some p) f = (value p, add p f)

  unfoldable pub from_created :
      String
      → Result String (GoMap String ConnectionPlugin)
      → Factory
      → Result FactoryError ConnectionPlugin × Factory
  unfolding add_created
  from_created name (fail e) f = (fail (create_failed e), f)
  from_created name (value plugins) f = add_created name (lookup name plugins) f

  unfoldable pub from_config :
      Result FactoryError String → Factory → Result FactoryError ConnectionPlugin × Factory
  unfolding from_created
  from_config (fail e) f = (fail e, f)
  from_config (value name) f = from_created name (sp.create_plugins name) f

  unfoldable pub create_connection_plugin :
      (plugin_fqn connection_name : String)
      → Factory
      → Result FactoryError ConnectionPlugin × Factory
  unfolding connection_config from_config
  create_connection_plugin plugin_fqn connection_name f =
      from_config (connection_config connection_name) f

  unfoldable pub got_or :
      Option ConnectionPlugin
      → Factory
      → Result FactoryError ConnectionPlugin × Factory
      → Result FactoryError ConnectionPlugin × Factory
  got_or (some c) f created = (value c, f)
  got_or none f created = created

  unfoldable pub get_or_create :
      (plugin_fqn connection_name : String)
      → Factory
      → Result FactoryError ConnectionPlugin × Factory
  unfolding got_or get create_connection_plugin
  get_or_create plugin_fqn connection_name f =
      got_or (get plugin_fqn connection_name f) f
        (create_connection_plugin plugin_fqn connection_name f)
