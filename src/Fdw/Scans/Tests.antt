-- ===== src/Fdw/Scans/Tests.antt =====
-- The scan callbacks at concrete inputs, and their theorems applied there.
use steampipe_postgres_fdw.Prelude.{
  nat_eq, string_eq, All, contains, ok, Result, value, fail, value_injective, ℕ, ◌+◌, String, ◌≡◌,
  refl, sym, ap, ◌≢◌, true, false, Option, none, some, List, [], ◌∷◌, arith,
}
use steampipe_postgres_fdw.Prelude.Int.{pos, int_eq, ◌-ℤ◌}
use steampipe_postgres_fdw.Prelude.GoMap.{lookup, insert}
use steampipe_postgres_fdw.Proto.{Schema, static, required, Qual, int64_value}
use steampipe_postgres_fdw.Hub.Remote.{
  get_iterator, RemoteEnvironment, GlobalConfig, plugin_scan, ScanRequest,
}
use steampipe_postgres_fdw.Hub.Quals.{build_qual_map, should_pushdown_limit}
use steampipe_postgres_fdw.Fdw.Sorting.Defs.{get_sort_columns}
use steampipe_postgres_fdw.Hub.Quals.Pushdown.{HandlesAll}
use steampipe_postgres_fdw.Hub.Factory.Defs.{ConnectionPlugin, Steampipe, get_or_create}
use steampipe_postgres_fdw.Hub.Limits.Defs.{
  ExecuteConnectionData, new_execute_request, request_connection_data, build_connection_limit_map,
}
use steampipe_postgres_fdw.Hub.Limits.Requests.{is_checked}
use steampipe_postgres_fdw.Hub.Iterator.Defs.{
  Value, int_value, nil_value, scalar, Row, ResultRow, Iterator, started, new_base_scan_iterator,
  populate_row, returns, row_read, next,
}
use steampipe_postgres_fdw.Fdw.Restrictions.Nodes.{Node, op_expr, var, const, arg, no_args}
use steampipe_postgres_fdw.Fdw.Restrictions.Defs.{
  restrictions_to_quals, single_restriction_to_qual, unnest_clause,
}
use steampipe_postgres_fdw.Fdw.Restrictions.Sample.{small, infos}
use steampipe_postgres_fdw.Fdw.Scans.Defs.{
  ExecState, begin_iterator, qual_pointers, iterate_foreign_scan, tuples_of_scan, slot_of_row,
  slot_panics, tuple, started_if_ready, path_items,
}
use steampipe_postgres_fdw.Fdw.Scans.Limits.{limit_sent_only_if_safe, IsScanSchema}
use steampipe_postgres_fdw.Fdw.Scans.Rows.{IsTupleOf, tuple_holds_row, empty_row_ends_scan}

abbrev schema : Schema
schema = record {
  mode = static;
  tables =
      (
        "host",
        record {
          columns = [];
          list_call_key_columns = none;
          list_call_optional_key_columns = none;
          list_call_key_column_list =
              some (record { name = "id"; operators = "=" ∷ []; require = required } ∷ []);
          get_call_key_column_list = [];
        },
      )
      ∷ [];
}

abbrev plugin : ConnectionPlugin
plugin = record { client = 1; plugin_name = "net"; connection_map = ("net", schema) ∷ [] }

abbrev steampipe : Steampipe
steampipe = record {
  configured = λ name. true;
  reload = fail "no reload";
  create_plugins = λ name. value ((name, plugin) ∷ []);
  exited = λ client. false;
}

abbrev remote : RemoteEnvironment
remote = record {
  steampipe = steampipe;
  schema_of = λ p name. value schema;
  internal_schema = "steampipe_internal";
  legacy_command_schema = "steampipe_command";
}

abbrev config : GlobalConfig
config = record {
  address = 1;
  connections = ("net", record { plugin = "net"; is_aggregator = false; resolved_names = [] }) ∷ [];
}

-- id = 5
abbrev id_is_5 : Node
id_is_5 = op_expr 410 467 16 (arg (var 1 (pos 1)) (arg (const 20 5 false) no_args))

abbrev state : ExecState
state = record {
  limit = pos 10;
  can_pushdown_all_sort_fields = true;
  pathkeys = [];
  columns = "id" ∷ [];
}

abbrev request : ScanRequest
request = record {
  connection_name = "net";
  table = "host";
  connection_limit_map = ("net", pos 10) ∷ [];
  qual_map =
      ("id", record { field_name = "id"; operator = "="; value = some (int64_value (pos 5)) } ∷ [])
      ∷ [];
  columns = "id" ∷ [];
  limit = pos 10;
  sort_order = [];
  query_timestamp = pos 0;
}

begun :
    (begin_iterator small infos 1 remote config false "net" "host"
      (id_is_5 ∷ [])
      state
      (pos 0)
      []).0
    ≡ ok (some (plugin_scan request))
unfolding begin_iterator restrictions_to_quals ◌-ℤ◌ unnest_clause get_iterator lookup insert
    get_or_create build_connection_limit_map build_qual_map get_sort_columns should_pushdown_limit
    contains
begun = refl

abbrev sent : ExecuteConnectionData
sent = record { limit = some (pos 10); cache_ttl = pos 300; cache_enabled = true }

limit_sent_only_if_safe_example :
    (pos 10 ≡ state.limit)
    × (state.can_pushdown_all_sort_fields ≡ true)
    × All (λ n. (q : Qual) × (single_restriction_to_qual small infos 1 n ≡ some q)) (id_is_5 ∷ [])
    × ((schema : Schema) × IsScanSchema remote config "net" [] schema
        × HandlesAll
            (lookup "host" schema.tables)
            (qual_pointers (restrictions_to_quals small infos 1 (id_is_5 ∷ [])).0))
    × (pos 10 ≡ state.limit)
unfolding new_execute_request request_connection_data is_checked lookup insert
limit_sent_only_if_safe_example =
    limit_sent_only_if_safe small infos 1 remote config false "net" "host" (id_is_5 ∷ []) state
      (pos 0) [] request (λ name. pos 300) (λ name. true) "net" sent (pos 10)
      (λ p name s e. ap (λ x. is_checked x.mode) (sym (value_injective e))) begun refl refl

abbrev parse : String → Result String Value
parse text = fail text

abbrev datum : Value → ℕ → Result String ℕ
datum v i = value (i + 40)

abbrev with_rows : List (Option Row) → Iterator
with_rows rows = record new_base_scan_iterator { status = started; rows = rows }

abbrev one_row : Row
one_row = ("id", scalar (int_value (pos 5))) ∷ ("name", scalar nil_value) ∷ []

-- The name is nil, and the address is not in the row.
one_tuple :
    (iterate_foreign_scan datum parse
      (λ t. t)
      ("name" ∷ "id" ∷ "address" ∷ [])
      none
      (with_rows (some one_row ∷ []))).0
    ≡ tuple (none ∷ some 41 ∷ none ∷ [])
unfolding iterate_foreign_scan next populate_row insert lookup new_base_scan_iterator
one_tuple = refl

tuple_holds_row_example :
    (row : ResultRow) × (after : Iterator) × (next parse
        (λ t. t)
        (started_if_ready datum none (with_rows (some one_row ∷ [])))
      ≡ returns (row_read row) after)
    × (row ≢ [])
    × IsTupleOf datum row ("name" ∷ "id" ∷ "address" ∷ []) 0 (none ∷ some 41 ∷ none ∷ [])
tuple_holds_row_example =
    tuple_holds_row datum parse (λ t. t) ("name" ∷ "id" ∷ "address" ∷ []) none
      (with_rows (some one_row ∷ [])) (none ∷ some 41 ∷ none ∷ []) one_tuple

abbrev one_result : ResultRow
one_result = ("id", int_value (pos 5)) ∷ ("name", nil_value) ∷ []

one_populated : populate_row parse (λ t. t) one_row ≡ value one_result
unfolding populate_row insert
one_populated = refl

one_slot : slot_of_row datum ("id" ∷ []) one_result ≡ tuple (some 40 ∷ [])
unfolding slot_of_row lookup
one_slot = refl

empty_row_ends_scan_example :
    tuples_of_scan datum parse
      (λ t. t)
      5
      ("id" ∷ [])
      none
      (with_rows (some one_row ∷ some [] ∷ some one_row ∷ []))
    ≡ ((some 40 ∷ []) ∷ [], with_rows (some one_row ∷ []))
empty_row_ends_scan_example =
    empty_row_ends_scan datum parse (λ t. t) ("id" ∷ []) none new_base_scan_iterator
      ((one_row, some 40 ∷ []) ∷ []) (some one_row ∷ []) 5
      ((one_result, one_populated, one_slot), tt) (omega arith)

no_attributes :
    (iterate_foreign_scan datum parse (λ t. t) [] none (with_rows (some one_row ∷ []))).0
    ≡ slot_panics
unfolding iterate_foreign_scan next populate_row insert lookup new_base_scan_iterator
no_attributes = refl

-- The attribute numbers of a path key: the second column is not in the table.
attribute_numbers :
    path_items (record { column_names = "id" ∷ "gone" ∷ "name" ∷ "id" ∷ []; rows = 2 } ∷ []) (
      some (record { attname = some "id"; attnum = pos 1 })
      ∷ none
      ∷ some (record { attname = some "name"; attnum = pos 3 })
      ∷ [])
    ≡ (pos 1 ∷ pos 3 ∷ [], 2) ∷ []
unfolding path_items
attribute_numbers = refl
