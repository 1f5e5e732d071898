-- ===== src/Hub/Limits/Defs.antt =====
-- The limit map of a scan and the execute request made from it. A limit of -1 is no limit.
use steampipe_postgres_fdw.Prelude.{
  if◌then◌else◌, ◌==◌, nat_eq, string_eq, Go, ok, panic, Result, value, fail, ℕ, String, Bool, true,
  false, not, ◌&&◌, Option, none, some, List, [], ◌∷◌,
}
use steampipe_postgres_fdw.Prelude.Int.{ℤ, negsuc, int_eq}
use steampipe_postgres_fdw.Prelude.GoMap.{GoMap, insert}
use steampipe_postgres_fdw.Proto.{Schema, SchemaMode, static, dynamic, other_mode, Qual}
use steampipe_postgres_fdw.Hub.Quals.{should_pushdown_limit}

abbrev pub no_limit : ℤ
no_limit = negsuc 0

unfoldable pub is_static : SchemaMode → Bool
is_static static = true
is_static dynamic = false
is_static (other_mode name) = false

unfoldable pub is_dynamic : SchemaMode → Bool
is_dynamic static = false
is_dynamic dynamic = true
is_dynamic (other_mode name) = false

-- The check before the loop, for a static schema.
unfoldable pub limit_for_all : SchemaMode → (pushed : Bool) → ℤ → ℤ
unfolding is_static
limit_for_all mode pushed limit =
    if not (limit == no_limit) && is_static mode
    then (if not pushed then no_limit else limit)
    else limit

-- The check in the loop, for a dynamic schema.
unfoldable pub limit_for_one : SchemaMode → (pushed : Bool) → ℤ → ℤ
unfolding is_dynamic
limit_for_one mode pushed limit = if is_dynamic mode && not pushed then no_limit else limit

unfoldable pub add_limits : List String → ℤ → GoMap String ℤ → GoMap String ℤ
add_limits [] limit m = m
add_limits (c ∷ names) limit m = add_limits names limit (insert c limit m)

-- The limits, once the schema is there.
unfoldable pub limits_for_schema :
    String → GoMap String (List Qual) → ℕ → List String → ℤ → Schema → GoMap String ℤ
unfolding limit_for_all limit_for_one add_limits
limits_for_schema table qual_map unhandled_restrictions names limit schema =
    let pushed = should_pushdown_limit table qual_map unhandled_restrictions schema in
    add_limits names (limit_for_one schema.mode pushed (limit_for_all schema.mode pushed limit)) []

unfoldable pub limits_of_result :
    String
    → GoMap String (List Qual)
    → ℕ
    → List String
    → ℤ
    → Result String Schema
    → Result String (GoMap String ℤ)
unfolding limits_for_schema
limits_of_result table qual_map unhandled_restrictions names limit (fail e) = fail e
limits_of_result table qual_map unhandled_restrictions names limit (value schema) =
    value (limits_for_schema table qual_map unhandled_restrictions names limit schema)

-- RemoteHub.buildConnectionLimitMap. The schema is the one of connectionNames[0], which is out of
-- range if there is no connection.
unfoldable pub build_connection_limit_map :
    (get_schema : String → Result String Schema)
    → String
    → GoMap String (List Qual)
    → ℕ
    → List String
    → ℤ
    → Go (Result String (GoMap String ℤ))
unfolding limits_of_result
build_connection_limit_map get_schema table qual_map unhandled_restrictions [] limit = panic
build_connection_limit_map get_schema table qual_map unhandled_restrictions (c ∷ names) limit =
    ok (limits_of_result table qual_map unhandled_restrictions (c ∷ names) limit (get_schema c))

-- HubLocal.buildConnectionLimitMap: the same for its one connection.
unfoldable pub build_local_limit_map :
    (get_schema : String → Result String Schema)
    → (connection table : String) → GoMap String (List Qual)
    → ℕ
    → ℤ
    → Result String (GoMap String ℤ)
unfolding limits_of_result
build_local_limit_map get_schema connection table qual_map unhandled_restrictions limit =
    limits_of_result table qual_map unhandled_restrictions (connection ∷ []) limit
      (get_schema connection)

-- proto.ExecuteConnectionData; an unset limit is `none`.
pub record ExecuteConnectionData : Type 0 where
  pub limit : Option ℤ
  pub cache_ttl : ℤ
  pub cache_enabled : Bool

-- proto.ExecuteRequest, with its limits: that of the query context, which NewQueryContext makes
-- of the limit that it is given, and those of the connections.
pub record ExecuteRequest : Type 0 where
  pub query_context_limit : ℤ
  pub execute_connection_data : GoMap String ExecuteConnectionData

-- The cache settings of the hub, asked for each connection.
module _ (cache_ttl : String → ℤ) (cache_enabled : String → Bool) where
  unfoldable pub connection_data : String → ℤ → ExecuteConnectionData
  connection_data c limit = record {
    limit = if not (limit == no_limit) then some limit else none;
    cache_ttl = cache_ttl c;
    cache_enabled = cache_enabled c;
  }

  -- newExecuteRequest, the loop.
  unfoldable pub execute_connection_data :
      GoMap String ℤ → GoMap String ExecuteConnectionData → GoMap String ExecuteConnectionData
  unfolding connection_data
  execute_connection_data [] req = req
  execute_connection_data ((c, limit) ∷ limits) req =
      execute_connection_data limits (insert c (connection_data c limit) req)

  -- newExecuteRequest, the map ExecuteConnectionData.
  unfoldable pub request_connection_data : GoMap String ℤ → GoMap String ExecuteConnectionData
  unfolding execute_connection_data
  request_connection_data limits = execute_connection_data limits []

  -- newExecuteRequest. `limit` is what the constructor of the iterator has handed to
  -- proto.NewQueryContext.
  unfoldable pub new_execute_request : (limit : ℤ) → GoMap String ℤ → ExecuteRequest
  unfolding request_connection_data
  new_execute_request limit limits = record {
    query_context_limit = limit;
    execute_connection_data = request_connection_data limits;
  }
