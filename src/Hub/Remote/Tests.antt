-- ===== src/Hub/Remote/Tests.antt =====
-- The remote hub at concrete inputs.
use steampipe_postgres_fdw.Prelude.{
  nat_eq, string_eq, ok, value, fail, ℕ, ◌≡◌, refl, false, none, some, [], ◌∷◌,
}
use steampipe_postgres_fdw.Prelude.GoMap.{lookup}
use steampipe_postgres_fdw.Proto.{Schema, static, required, bool, order_none}
use steampipe_postgres_fdw.PathKeys.{key_columns_to_path_keys, key_column_array_contains_column}
use steampipe_postgres_fdw.Hub.Remote.Defs.{
  GlobalConfig, load_connection_config, config_failed, path_keys, no_table_schema,
}

abbrev config : ℕ → GlobalConfig
config n = record { address = n; connections = [] }

-- A config that was loaded anew counts as unchanged.
loaded : load_connection_config (value (config 2)) (config 1) ≡ (value false, config 2)
unfolding load_connection_config
loaded = refl

not_loaded :
    load_connection_config (fail "syntax error") (config 1)
    ≡ (fail (config_failed "syntax error"), config 1)
unfolding load_connection_config
not_loaded = refl

abbrev schema : Schema
schema = record {
  mode = static;
  tables =
      (
        "host",
        record {
          columns =
              record { name = "id"; type = bool; sort_order = order_none }
              ∷ record { name = "tag"; type = bool; sort_order = order_none }
              ∷ [];
          list_call_key_columns = none;
          list_call_optional_key_columns = none;
          list_call_key_column_list =
              some (record { name = "id"; operators = "=" ∷ []; require = required } ∷ []);
          get_call_key_column_list = [];
        },
      )
      ∷ [];
}

host_keys :
    path_keys schema "net" "host"
    ≡ ok (
        value (
          record { column_names = "id" ∷ []; rows = 2 }
          ∷ record { column_names = "tag" ∷ "id" ∷ []; rows = 1 }
          ∷ []))
unfolding path_keys lookup key_columns_to_path_keys key_column_array_contains_column
host_keys = refl

missing_table : path_keys schema "net" "user" ≡ ok (fail (no_table_schema "net" "user"))
unfolding path_keys lookup
missing_table = refl
