-- ===== src/Fdw/Planner/Tests.antt =====
-- The size that the planner is told, at concrete inputs.
use steampipe_postgres_fdw.Prelude.{
  if◌then◌else◌, ◌==◌, nat_eq, string_eq, value, fail, ◌≡◌, refl, none, some, [], ◌∷◌,
}
use steampipe_postgres_fdw.Prelude.GoMap.{insert}
use steampipe_postgres_fdw.Fdw.Planner.Defs.{
  value_map, cstring_list_to_go_array, get_options, options_loop, PlannerHub, options_failed,
  config_failed, fdw_get_rel_size,
}

once : cstring_list_to_go_array ("id" ∷ "name" ∷ "id" ∷ []) ≡ "id" ∷ "name" ∷ []
unfolding cstring_list_to_go_array value_map insert
once = refl

last_wins : get_options (("a", "1") ∷ ("b", "2") ∷ ("a", "3") ∷ []) ≡ ("a", "3") ∷ ("b", "2") ∷ []
unfolding get_options options_loop insert
last_wins = refl

-- A hub that refuses the options of a connection, and whose config cannot be loaded.
abbrev broken : PlannerHub
broken = record {
  process_options = λ opts c. if c == "aws" then none else some "no config";
  load_connection_config = some "syntax error";
}

no_options : fdw_get_rel_size broken [] "net" none ≡ fail (options_failed "no config")
unfolding fdw_get_rel_size
no_options = refl

no_config : fdw_get_rel_size broken [] "aws" none ≡ fail (config_failed "syntax error")
unfolding fdw_get_rel_size
no_config = refl

abbrev working : PlannerHub
working = record { process_options = λ opts c. none; load_connection_config = none }

no_target_list :
    fdw_get_rel_size working [] "aws" none
    ≡ value (record { rows = 1000000; width = 0; tuples = 0 })
unfolding fdw_get_rel_size
no_target_list = refl

two_columns :
    fdw_get_rel_size working [] "aws" (some ("id" ∷ "name" ∷ "id" ∷ []))
    ≡ value (record { rows = 1000000; width = 200; tuples = 0 })
unfolding fdw_get_rel_size value_map insert
two_columns = refl
