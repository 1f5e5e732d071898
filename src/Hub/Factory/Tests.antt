-- ===== src/Hub/Factory/Tests.antt =====
-- The plugins of two connections.
use steampipe_postgres_fdw.Prelude.{
  ◌==◌, nat_eq, string_eq, ok, panic, Result, value, fail, ℕ, String, ◌≡◌, refl, inl, Bool, true,
  some, List, [], ◌∷◌,
}
use steampipe_postgres_fdw.Prelude.GoMap.{GoMap, lookup, insert}
use steampipe_postgres_fdw.Proto.{Schema, static}
use steampipe_postgres_fdw.Hub.Factory.Defs.{
  if_running, append, connection_plugin_key, ConnectionPlugin, Factory, Steampipe, add_connections,
  add, get, connection_config, add_created, from_created, from_config, create_connection_plugin,
  get_or_create,
}
use steampipe_postgres_fdw.Hub.Factory.Schemas.{
  get_connection_schema, created_schema, refetch_failed,
}
use steampipe_postgres_fdw.Hub.Factory.Reuse.{exited_not_replaced, run_creates, created_is_reused}

abbrev schema : Schema
schema = record { mode = static; tables = [] }

abbrev plugin : ℕ → ConnectionPlugin
plugin n = record {
  client = n;
  plugin_name = "aws@latest";
  connection_map = ("aws1", schema) ∷ ("aws2", schema) ∷ [];
}

abbrev all_configured : String → Bool
all_configured c = true

abbrev second_client : String → Result String (GoMap String ConnectionPlugin)
second_client c = value ((c, plugin 2) ∷ [])

abbrev first_exited : ℕ → Bool
first_exited n = n == 1

abbrev steampipe : Steampipe
steampipe = record {
  configured = all_configured;
  reload = value all_configured;
  create_plugins = second_client;
  exited = first_exited;
}

abbrev with_first : Factory
with_first = ("aws@latest\\\\aws1", plugin 1) ∷ []

key_of_first : connection_plugin_key "aws@latest" "aws1" ≡ "aws@latest\\\\aws1"
unfolding connection_plugin_key append
key_of_first = refl

abbrev two_calls : List (Steampipe × String × String)
two_calls = (steampipe, "aws@latest", "aws1") ∷ (steampipe, "aws@latest", "aws2") ∷ []

exited_not_replaced_example :
    (lookup (connection_plugin_key "aws@latest" "aws1") (run_creates two_calls with_first)
      ≡ some (plugin 1))
    × (get_or_create steampipe "aws@latest" "aws1" (run_creates two_calls with_first)
        ≡ create_connection_plugin steampipe "aws@latest" "aws1" (run_creates two_calls with_first))
unfolding lookup connection_plugin_key append
exited_not_replaced_example =
    exited_not_replaced steampipe two_calls "aws@latest" "aws1" with_first (plugin 1) refl refl

abbrev with_second : Factory
with_second = ("aws@latest\\\\aws1", plugin 2) ∷ ("aws@latest\\\\aws2", plugin 2) ∷ []

created_second :
    create_connection_plugin steampipe "aws@latest" "aws1" [] ≡ (value (plugin 2), with_second)
unfolding create_connection_plugin connection_config from_config from_created add_created add
    add_connections lookup insert connection_plugin_key append
created_second = refl

created_is_reused_example :
    get_or_create steampipe "aws@latest" "aws1" with_second ≡ (value (plugin 2), with_second)
unfolding lookup
created_is_reused_example =
    created_is_reused steampipe steampipe "aws1" [] with_second (plugin 2) created_second (inl refl)
      refl refl

abbrev refetch : ConnectionPlugin → String → Result String Schema
refetch p name = fail "not running"

first_schema :
    get_connection_schema steampipe refetch "aws@latest" "aws1" []
    ≡ (ok (value schema), with_second)
unfolding get_connection_schema create_connection_plugin connection_config from_config from_created
    add_created add add_connections lookup insert connection_plugin_key append created_schema
first_schema = refl

later_schema :
    get_connection_schema steampipe refetch "aws@latest" "aws1" with_second
    ≡ (ok (fail (refetch_failed "not running")), with_second)
unfolding get_connection_schema lookup connection_plugin_key append get if_running
later_schema = refl

-- A plugin that was created for a connection and does not list it.
not_listed : created_schema "aws3" (value (plugin 2)) ≡ panic
unfolding created_schema lookup
not_listed = refl
