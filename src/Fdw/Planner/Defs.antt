-- ===== src/Fdw/Planner/Defs.antt =====
-- goFdwGetRelSize of fdw.go, getOptions and CStringListToGoArray of helpers.go, and GetRelSize of
-- hub/hub_base.go.
use steampipe_postgres_fdw.Prelude.{
  length, nat_eq, string_eq, Result, value, fail, ℕ, ◌*◌, String, Option, none, some, List, [], ◌∷◌,
}
use steampipe_postgres_fdw.Prelude.GoMap.{GoMap, keys, insert}

-- The loop of CStringListToGoArray.
unfoldable pub value_map : List String → GoMap {0} String Unit → GoMap {0} String Unit
unfolding insert
value_map [] m = m
value_map (s ∷ values) m = value_map values (insert s tt m)

unfoldable pub cstring_list_to_go_array : List String → List String
unfolding value_map
cstring_list_to_go_array values = keys (value_map values [])

-- The loop of getOptions.
unfoldable pub options_loop : List (String × String) → GoMap String String → GoMap String String
unfolding insert
options_loop [] m = m
options_loop ((name, val) ∷ opts) m = options_loop opts (insert name val m)

unfoldable pub get_options : List (String × String) → GoMap String String
unfolding options_loop
get_options opts = options_loop opts []

pub record RelSize : Type 0 where
  pub rows : ℕ
  pub width : ℕ
  pub tuples : ℕ

unfoldable pub get_rel_size : List String → RelSize
get_rel_size columns = record { rows = 1000000; width = 100 * length columns; tuples = 0 }

pub data RelSizeError : Type 0 where
  options_failed : String → RelSizeError
  config_failed : String → RelSizeError

-- The errors of ProcessImportForeignSchemaOptions and of the LoadConnectionConfig that follows.
pub record PlannerHub : Type 0 where
  pub process_options : GoMap String String → (connection : String) → Option String
  pub load_connection_config : Option String

unfoldable pub target_columns : Option (List String) → List String
unfolding cstring_list_to_go_array
target_columns none = []
target_columns (some target_list) = cstring_list_to_go_array target_list

module _ (hub : PlannerHub) where
  abbrev pub after_load : Option (List String) → Option String → Result RelSizeError RelSize
  after_load target_list (some e) = fail (config_failed e)
  after_load target_list none = value (get_rel_size (target_columns target_list))

  abbrev pub after_process : Option (List String) → Option String → Result RelSizeError RelSize
  after_process target_list (some e) = fail (options_failed e)
  after_process target_list none = after_load target_list hub.load_connection_config

  -- goFdwGetRelSize, for a server with these options; FdwError ends it.
  unfoldable pub fdw_get_rel_size :
      List (String × String)
      → (connection : String) → Option (List String)
      → Result RelSizeError RelSize
  unfolding get_options get_rel_size target_columns
  fdw_get_rel_size server_options connection target_list =
      after_process target_list (hub.process_options (get_options server_options) connection)
