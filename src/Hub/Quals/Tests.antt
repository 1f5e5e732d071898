-- ===== src/Hub/Quals/Tests.antt =====
-- A small table, its quals, and the limit.
use steampipe_postgres_fdw.Prelude.{
  ℕ, String, true, false, List, [], ◌∷◌, Option, none, some, contains, ◌≡◌, ◌↔◌, refl, string_eq,
}
use steampipe_postgres_fdw.Prelude.GoMap.{lookup, insert}
use steampipe_postgres_fdw.Proto.{required, optional, TableSchema, Schema, static, Qual, bool_value}
use steampipe_postgres_fdw.Hub.Quals.Defs.{build_qual_map, should_pushdown_limit}
use steampipe_postgres_fdw.Hub.Quals.Pushdown.{HandlesAll, should_pushdown_limit_iff}

abbrev is : String → String → Qual
is column operator = record {
  field_name = column;
  operator = operator;
  value = some (bool_value true);
}

abbrev regions : TableSchema
regions = record {
  columns = [];
  list_call_key_columns = none;
  list_call_optional_key_columns = none;
  list_call_key_column_list =
      some (record { name = "region"; operators = "=" ∷ "<>" ∷ []; require = optional } ∷ []);
  get_call_key_column_list = record { name = "id"; operators = "=" ∷ []; require = required } ∷ [];
}

abbrev schema : Schema
schema = record { mode = static; tables = ("regions", regions) ∷ [] }

abbrev quals : List (Option Qual)
quals = some (is "id" "=") ∷ none ∷ some (is "region" "<>") ∷ some (is "id" "<>") ∷ []

pushed :
    should_pushdown_limit "regions" (build_qual_map (some (is "region" "=") ∷ [])) 0 schema ≡ true
unfolding should_pushdown_limit build_qual_map insert lookup contains
pushed = refl

-- The get call's key column has no "<>".
kept : should_pushdown_limit "regions" (build_qual_map quals) 0 schema ≡ false
unfolding should_pushdown_limit build_qual_map insert lookup contains
kept = refl

should_pushdown_limit_iff_example :
    (should_pushdown_limit "regions" (build_qual_map quals) 0 schema ≡ true)
    ↔ ((◌≡◌ {A = ℕ} 0 0) × HandlesAll (lookup "regions" schema.tables) quals)
should_pushdown_limit_iff_example = should_pushdown_limit_iff "regions" quals 0 schema
