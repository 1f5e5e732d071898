-- ===== src/Hub/Limits/Tests.antt =====
-- The limits of a scan of two connections.
use steampipe_postgres_fdw.Prelude.{
  ◌==◌, nat_eq, string_eq, contains, ok, Result, value, String, ◌≡◌, refl, Bool, false, none, some,
  [], ◌∷◌,
}
use steampipe_postgres_fdw.Prelude.Int.{ℤ, pos, int_eq}
use steampipe_postgres_fdw.Prelude.GoMap.{GoMap, lookup, insert}
use steampipe_postgres_fdw.Proto.{Schema, dynamic}
use steampipe_postgres_fdw.Hub.Quals.{should_pushdown_limit, build_qual_map}
use steampipe_postgres_fdw.Hub.Limits.Defs.{
  build_connection_limit_map, limits_of_result, limits_for_schema, add_limits, limit_for_one,
  limit_for_all, is_static, is_dynamic, new_execute_request,
}
use steampipe_postgres_fdw.Hub.Limits.Requests.{request_limit, is_checked, execute_request_limits}

abbrev schema : Schema
schema = record {
  mode = dynamic;
  tables =
      (
        "regions",
        record {
          columns = [];
          list_call_key_columns = none;
          list_call_optional_key_columns = none;
          list_call_key_column_list = none;
          get_call_key_column_list = [];
        },
      )
      ∷ [];
}

abbrev limits_schema : String → Result String Schema
limits_schema c = value schema

abbrev ttl : String → ℤ
ttl c = pos 300

abbrev enabled : String → Bool
enabled c = c == "aws1"

abbrev two_limits : GoMap String ℤ
two_limits = ("aws1", pos 10) ∷ ("aws2", pos 10) ∷ []

no_quals :
    build_connection_limit_map limits_schema "regions"
      (build_qual_map [])
      0
      ("aws1" ∷ "aws2" ∷ [])
      (pos 10)
    ≡ ok (value two_limits)
unfolding build_connection_limit_map build_qual_map limits_of_result limits_for_schema add_limits
    limit_for_one limit_for_all is_static is_dynamic should_pushdown_limit lookup insert
no_quals = refl

execute_request_limits_example :
    lookup "aws2" (new_execute_request ttl enabled (pos 10) two_limits).execute_connection_data
    ≡ some (record { limit = some (pos 10); cache_ttl = pos 300; cache_enabled = false })
unfolding request_limit is_checked should_pushdown_limit build_qual_map lookup contains
execute_request_limits_example =
    execute_request_limits ttl enabled limits_schema "regions" (build_qual_map []) 0 "aws1"
      ("aws2" ∷ []) (pos 10) two_limits schema "aws2" refl no_quals
