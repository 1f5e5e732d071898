-- ===== src/Hub/Quals/Defs.antt =====
-- `buildQualMap` and `shouldPushdownLimit`, the definitions.
use steampipe_postgres_fdw.Prelude.{
  ℕ, String, Bool, true, false, not, Option, none, some, List, [], ◌∷◌, ◌++◌, if◌then◌else◌, ltb,
  contains, string_eq,
}
use steampipe_postgres_fdw.Prelude.GoMap.{GoMap, lookup, insert}
use steampipe_postgres_fdw.Proto.{KeyColumn, TableSchema, Schema, Qual}

-- columnQuals.Append(qual), or a new list of the one qual.
abbrev pub append_qual : Option (List Qual) → Qual → List Qual
append_qual (some column_quals) q = column_quals ++ q ∷ []
append_qual none q = q ∷ []

unfoldable pub build_loop : GoMap String (List Qual) → List (Option Qual) → GoMap String (List Qual)
build_loop m [] = m
build_loop m (none ∷ qs) = build_loop m qs
build_loop m (some q ∷ qs) =
    build_loop (insert q.field_name (append_qual (lookup q.field_name m) q) m) qs

-- The error that the Go function returns is always nil.
unfoldable pub build_qual_map : List (Option Qual) → GoMap String (List Qual)
unfolding build_loop
build_qual_map quals = build_loop [] quals

unfoldable pub add_key_columns : GoMap String KeyColumn → List KeyColumn → GoMap String KeyColumn
add_key_columns m [] = m
add_key_columns m (k ∷ ks) = add_key_columns (insert k.name k m) ks

-- A range over a nil slice makes no round.
abbrev pub or_empty {ℓ} : {A : Type ℓ} → Option (List A) → List A
or_empty none = []
or_empty (some xs) = xs

unfoldable pub key_column_map : TableSchema → GoMap String KeyColumn
unfolding add_key_columns
key_column_map t =
    add_key_columns (add_key_columns [] (or_empty t.list_call_key_column_list))
      t.get_call_key_column_list

unfoldable pub operators_supported : KeyColumn → List Qual → Bool
operators_supported k [] = true
operators_supported k (q ∷ qs) =
    let rest = operators_supported k qs in
    if not (contains k.operators q.operator) then false else rest

abbrev pub column_supported : Option KeyColumn → List Qual → Bool
column_supported (some k) qs = operators_supported k qs
column_supported none qs = false

-- The loop over the qual map.
unfoldable pub quals_supported : GoMap String KeyColumn → GoMap String (List Qual) → Bool
unfolding operators_supported
quals_supported keys [] = true
quals_supported keys ((col, quals) ∷ qm) =
    let rest = quals_supported keys qm in
    if not (column_supported (lookup col keys) quals) then false else rest

abbrev pub table_supported : Option TableSchema → GoMap String (List Qual) → Bool
table_supported none qm = false
table_supported (some t) qm = quals_supported (key_column_map t) qm

unfoldable pub should_pushdown_limit :
    (table : String) (qual_map : GoMap String (List Qual)) (unhandled_restrictions : ℕ)
    → Schema
    → Bool
unfolding key_column_map quals_supported
should_pushdown_limit table qual_map unhandled_restrictions schema =
    if ltb 0 unhandled_restrictions
    then false
    else table_supported (lookup table schema.tables) qual_map
