-- ===== src/Hub/Local/Tests.antt =====
-- A local hub with one connection.
use steampipe_postgres_fdw.Prelude.{
  nat_eq, string_eq, ==_iff, Result, value, fail, String, ◌≡◌, refl, subst, ◌≢◌, Option, none, some,
  List, [], ◌∷◌,
}
use steampipe_postgres_fdw.Prelude.GoMap.{GoMap, lookup, insert}
use steampipe_postgres_fdw.Proto.{Schema, static}
use steampipe_postgres_fdw.Hub.Local.Defs.{
  Request, set_all, update, LocalHub, config_of, option_text, set_connection_config,
  update_connection_config, process_import_foreign_schema_options, get_schema,
}
use steampipe_postgres_fdw.Hub.Local.Sync.{
  plugin_configs, config_at, IsSynced, set_update-IsSynced, options_not_sent,
}

abbrev accepts : Request → Option String
accepts r = none

abbrev no_connections : LocalHub
no_connections = record { connections = []; sent = [] }

no_connections-IsSynced : IsSynced no_connections
unfolding plugin_configs lookup
no_connections-IsSynced = record { is_map = tt; keyed = tt; same = λ name. refl }

set_update-IsSynced_example :
    IsSynced (set_connection_config accepts "net" "region = 1" no_connections).1
    × IsSynced (update_connection_config accepts "net" "region = 1" no_connections).1
set_update-IsSynced_example =
    set_update-IsSynced accepts "net" "region = 1" no_connections no_connections-IsSynced

abbrev one_connection : LocalHub
one_connection = record {
  connections = ("net", config_of "net" "region = 1") ∷ [];
  sent = set_all (config_of "net" "region = 1" ∷ []) ∷ [];
}

set_one : set_connection_config accepts "net" "region = 1" no_connections ≡ (none, one_connection)
unfolding set_connection_config insert
set_one = refl

one_connection-IsSynced : IsSynced one_connection
one_connection-IsSynced =
    subst (λ r. IsSynced r.1) set_one
      (set_update-IsSynced accepts "net" "region = 1" no_connections no_connections-IsSynced).0

abbrev new_options : GoMap String String
new_options = ("config", "region = 2") ∷ []

different : "region = 1" ≢ option_text (lookup "config" new_options)
unfolding lookup
different e = cc ((==_iff "region = 1" (option_text (lookup "config" new_options))).1 e)

options_not_sent_example :
    ((process_import_foreign_schema_options accepts new_options "net" one_connection).0 ≡ none)
    × ((process_import_foreign_schema_options accepts new_options "net" one_connection).1.sent
        ≡ one_connection.sent)
    × (config_at (
          lookup "net"
            (process_import_foreign_schema_options accepts new_options "net"
              one_connection).1.connections)
        ≡ some (option_text (lookup "config" new_options)))
    × (lookup "net" (
          plugin_configs
            (process_import_foreign_schema_options accepts new_options "net" one_connection).1.sent)
        ≡ some "region = 1")
    × ¬ IsSynced (process_import_foreign_schema_options accepts new_options "net" one_connection).1
unfolding lookup
options_not_sent_example =
    options_not_sent accepts "net" new_options (config_of "net" "region = 1") one_connection
      one_connection-IsSynced refl different

-- The update alone does reach the plugin.
update_sent :
    (update_connection_config accepts "net" "region = 2" one_connection).1.sent
    ≡ set_all (config_of "net" "region = 1" ∷ []) ∷ update (config_of "net" "region = 2" ∷ []) ∷ []
unfolding update_connection_config lookup
update_sent = refl

-- A connection without a config is set with an empty one, and asked for again.
abbrev known : List Request → String → Result String Schema
known [] name = fail "no connection config"
known (r ∷ rs) name = value (record { mode = static; tables = [] })

schema_on_retry : get_schema accepts known "net" no_connections ≡ (
  value (record { mode = static; tables = [] }),
  record {
    connections = ("net", config_of "net" "") ∷ [];
    sent = set_all (config_of "net" "" ∷ []) ∷ [];
  },
)
unfolding get_schema insert
schema_on_retry = refl
