-- ===== src/Fdw/Imports/Selected.antt =====
-- The tables that SchemaToSql imports.
use steampipe_postgres_fdw.Prelude.{
  if◌then◌else◌, keep, nat_eq, string_eq, contains, Result, value, fail, String, ◌≡◌, refl, sym, ap,
  ◌∙◌, Bool, true, false, not, some, List, [], ◌∷◌, ◌++◌,
}
use mathlib.Core.List.{append-nil, append_assoc}
use steampipe_postgres_fdw.Prelude.GoMap.{GoMap}
use steampipe_postgres_fdw.Proto.{TableSchema}
use steampipe_postgres_fdw.Fdw.Imports.Defs.{
  Escapes, ImportError, on_value, get_sql_for_table, ListType, import_all, limit_to, except,
  is_skipped, ImportStatement, schema_loop, schema_to_sql,
}

-- Whether a statement with a list of tables asks for a table.
unfoldable pub is_wanted : ListType → List String → String × TableSchema → Bool
unfolding contains
is_wanted import_all tables (table, t) = true
is_wanted limit_to tables (table, t) = contains tables table
is_wanted except tables (table, t) = not (contains tables table)

not-not : (b : Bool) → not (not b) ≡ b
not-not true = refl
not-not false = refl

not-skipped :
    (l : ListType) (tables : List String) (table : String) (t : TableSchema)
    → not (is_skipped l tables table) ≡ is_wanted l tables (table, t)
unfolding is_skipped is_wanted
not-skipped import_all tables table t = refl
not-skipped limit_to tables table t = not-not (contains tables table)
not-skipped except tables table t = refl

module _ (escape : Escapes) (stmt : ImportStatement) (server_name : String) where
  -- The statements of a schema, or the first error.
  unfoldable pub statements : GoMap String TableSchema → Result ImportError (List String)
  unfolding get_sql_for_table
  statements [] = value []
  statements ((table, t) ∷ schema) =
      on_value (get_sql_for_table escape table t stmt.local_schema server_name)
        (λ sql. on_value (statements schema) (λ rest. value (sql ∷ rest)))

  abbrev after : List String → Result ImportError (List String) → Result ImportError (List String)
  after commands r = on_value r (λ rest. value (commands ++ rest))

  after_one :
      (commands : List String) (sql : String) (r : Result ImportError (List String))
      → after (commands ++ sql ∷ []) r ≡ after commands (on_value r (λ rest. value (sql ∷ rest)))
  after_one commands sql (value rest) = ap (λ l. value l) (append_assoc commands (sql ∷ []) rest)
  after_one commands sql (fail e) = refl

  after_empty : (r : Result ImportError (List String)) → after [] r ≡ r
  after_empty (value rest) = refl
  after_empty (fail e) = refl

  add_one :
      (r : Result ImportError String) (commands : List String)
      (loop : List String → Result ImportError (List String))
      (rest : Result ImportError (List String))
      → ((cs : List String) → loop cs ≡ after cs rest)
      → on_value r (λ sql. loop (commands ++ sql ∷ []))
        ≡ after commands (on_value r (λ sql. on_value rest (λ l. value (sql ∷ l))))
  add_one (value sql) commands loop rest h = h (commands ++ sql ∷ []) ∙ after_one commands sql rest
  add_one (fail e) commands loop rest h = refl

  skip_or_add :
      (skipped wanted : Bool) (p : String × TableSchema) (rest : GoMap String TableSchema)
      (commands : List String) {skip add : Result ImportError (List String)}
      → not skipped ≡ wanted
      → skip ≡ after commands (statements rest)
      → add ≡ after commands (statements (p ∷ rest))
      → (if skipped then skip else add)
        ≡ after commands (statements (if wanted then p ∷ rest else rest))
  skip_or_add true true p rest commands e h k = cc
  skip_or_add true false p rest commands e h k = h
  skip_or_add false true p rest commands e h k = k
  skip_or_add false false p rest commands e h k = cc

  schema_loop_lem :
      (schema : GoMap String TableSchema) (commands : List String)
      → schema_loop escape stmt server_name schema commands
        ≡ after commands (statements (keep (is_wanted stmt.list_type stmt.table_list) schema))
  unfolding schema_loop keep statements
  schema_loop_lem [] commands = ap (λ l. value l) (sym (append-nil commands))
  schema_loop_lem ((table, t) ∷ schema) commands =
      skip_or_add (is_skipped stmt.list_type stmt.table_list table)
        (is_wanted stmt.list_type stmt.table_list (table, t)) (table, t)
        (keep (is_wanted stmt.list_type stmt.table_list) schema) commands
        (not-skipped stmt.list_type stmt.table_list table t) (schema_loop_lem schema commands)
        (add_one (get_sql_for_table escape table t stmt.local_schema server_name) commands
          (schema_loop escape stmt server_name schema)
          (statements (keep (is_wanted stmt.list_type stmt.table_list) schema))
          (schema_loop_lem schema))

  -- SchemaToSql, for a server that exists and the tables of the schema in any order, gives the
  -- statements of the tables that the statement asks for, in that order, or the error of the
  -- first of them that fails.
  pub schema_to_sql-statements :
      (schema : GoMap String TableSchema)
      → schema_to_sql escape stmt (some server_name) schema
        ≡ statements (keep (is_wanted stmt.list_type stmt.table_list) schema)
  unfolding schema_to_sql
  schema_to_sql-statements schema = schema_loop_lem schema [] ∙ after_empty _
