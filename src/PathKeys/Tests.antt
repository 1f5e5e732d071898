-- ===== src/PathKeys/Tests.antt =====
-- Path keys of small tables; the first two are tests of types/pathkeys_test.go.
use steampipe_postgres_fdw.Prelude.{
  ℕ, String, List, [], ◌∷◌, contains, keep, ok, panic, ◌≡◌, ◌↔◌, refl, inl, inr, In, All, string_eq,
  all_distinct, all_distinct→Distinct,
}
use steampipe_postgres_fdw.Proto.{Require, required, optional, any_of, KeyColumn}
use steampipe_postgres_fdw.PathKeys.Defs.{
  PathKey, key_column_array_contains_column, remove_key_columns_from_all_columns,
  column_paths_to_path_keys, key_columns_to_path_keys,
}
use steampipe_postgres_fdw.PathKeys.Columns.{remove_key_columns_lem}
use steampipe_postgres_fdw.PathKeys.Distinct.{IsKeyed}
use steampipe_postgres_fdw.PathKeys.Coverage.{Covers, key_columns_to_path_keys-Covers}
use steampipe_postgres_fdw.PathKeys.Costs.{MadeFrom, column_paths_to_path_keys_iff}

abbrev key : String → Require → KeyColumn
key name require = record { name = name; operators = "=" ∷ []; require = require }

abbrev path : List String → ℕ → PathKey
path columns cost = record { column_names = columns; rows = cost }

abbrev columns : List String
columns = "id" ∷ "anyof1" ∷ "anyof2" ∷ "c3" ∷ []

abbrev any_of_keys : List KeyColumn
any_of_keys = key "id" required ∷ key "anyof1" any_of ∷ key "anyof2" any_of ∷ []

abbrev any_of_path_keys : List PathKey
any_of_path_keys =
    path ("anyof1" ∷ "id" ∷ []) 2
    ∷ path ("c3" ∷ "anyof1" ∷ "id" ∷ []) 1
    ∷ path ("anyof2" ∷ "id" ∷ []) 2
    ∷ path ("c3" ∷ "anyof2" ∷ "id" ∷ []) 1
    ∷ []

single_required :
    key_columns_to_path_keys (key "id" required ∷ []) ("id" ∷ "c1" ∷ "c2" ∷ [])
    ≡ ok (path ("id" ∷ []) 2 ∷ path ("c1" ∷ "id" ∷ []) 1 ∷ path ("c2" ∷ "id" ∷ []) 1 ∷ [])
unfolding key_columns_to_path_keys key_column_array_contains_column contains
single_required = refl

required_and_any_of : key_columns_to_path_keys any_of_keys columns ≡ ok any_of_path_keys
unfolding key_columns_to_path_keys key_column_array_contains_column contains
required_and_any_of = refl

-- A key column that is no column of the table: the slice has no room.
unknown_key :
    key_columns_to_path_keys (key "id" required ∷ key "x" optional ∷ []) ("id" ∷ "c1" ∷ []) ≡ panic
unfolding key_columns_to_path_keys key_column_array_contains_column contains
unknown_key = refl

remove_key_columns_lem_example :
    remove_key_columns_from_all_columns
      (key "id" required ∷ key "x" optional ∷ [])
      ("id" ∷ "c1" ∷ [])
    ≡ panic
unfolding keep key_column_array_contains_column
remove_key_columns_lem_example =
    remove_key_columns_lem (key "id" required ∷ key "x" optional ∷ []) ("id" ∷ "c1" ∷ [])

columns-IsKeyed : IsKeyed any_of_keys columns
unfolding all_distinct
columns-IsKeyed = record {
  distinct_keys = all_distinct→Distinct ("id" ∷ "anyof1" ∷ "anyof2" ∷ []) refl;
  distinct_columns = all_distinct→Distinct columns refl;
  known_keys = (inl refl, (inr (inl refl), (inr (inr (inl refl)), tt)));
}

key_columns_to_path_keys-Covers_example :
    All (λ p. Covers ("id" ∷ []) ("anyof1" ∷ "anyof2" ∷ []) p.column_names) any_of_path_keys
key_columns_to_path_keys-Covers_example =
    key_columns_to_path_keys-Covers any_of_keys columns any_of_path_keys required_and_any_of

column_paths_to_path_keys_iff_example :
    In
      (path ("c3" ∷ "id" ∷ []) 1)
      (column_paths_to_path_keys (("id" ∷ []) ∷ []) ("id" ∷ "c3" ∷ []) 1)
    ↔ ((s : List String) × In s (("id" ∷ []) ∷ [])
        × MadeFrom s ("id" ∷ "c3" ∷ []) 1 (path ("c3" ∷ "id" ∷ []) 1))
column_paths_to_path_keys_iff_example =
    column_paths_to_path_keys_iff (("id" ∷ []) ∷ []) ("id" ∷ "c3" ∷ []) 1
      (path ("c3" ∷ "id" ∷ []) 1)
