-- ===== src/Fdw/Imports/Supported.antt =====
-- The column types that an import takes.
use steampipe_postgres_fdw.Prelude.{
  length, keep, nat_eq, string_eq, All, In, Result, value, fail, ℕ, suc, String, ◌≡◌, refl, sym, ap,
  ◌∙◌, subst, ◌≢◌, ◌⊎◌, inl, inr, Bool, Option, none, some, List, [], ◌∷◌,
}
use steampipe_postgres_fdw.Prelude.GoMap.{GoMap}
use steampipe_postgres_fdw.Proto.{
  ColumnType, bool, int, double, string, json, datetime, ipaddr, cidr, timestamp, inet, ltree,
  unsupported, ColumnDefinition, TableSchema,
}
use steampipe_postgres_fdw.Fdw.Imports.Defs.{
  Escapes, ImportError, unsupported_type, on_value, column_text, is_empty, sql_type_for_column_type,
  column_lines, statement, get_sql_for_table, ImportStatement, schema_to_sql,
}
use steampipe_postgres_fdw.Fdw.Imports.Selected.{is_wanted, statements, schema_to_sql-statements}

-- A column of a type that the switch lists.
unfoldable pub Supported : ColumnDefinition → Type 0
Supported c = (n : ℕ) → c.type ≢ unsupported n

HasSqlType : ColumnType → Type 0
HasSqlType t =
    ((s : String) × (sql_type_for_column_type t ≡ some s) × ((n : ℕ) → t ≢ unsupported n))
    ⊎ ((n : ℕ) × (t ≡ unsupported n) × (sql_type_for_column_type t ≡ none))

sql_type_cases : (t : ColumnType) → HasSqlType t
unfolding HasSqlType sql_type_for_column_type
sql_type_cases bool = inl ("bool", refl, λ n e. cc)
sql_type_cases int = inl ("bigint", refl, λ n e. cc)
sql_type_cases double = inl ("double precision", refl, λ n e. cc)
sql_type_cases string = inl ("text", refl, λ n e. cc)
sql_type_cases ipaddr = inl ("inet", refl, λ n e. cc)
sql_type_cases inet = inl ("inet", refl, λ n e. cc)
sql_type_cases cidr = inl ("cidr", refl, λ n e. cc)
sql_type_cases json = inl ("jsonb", refl, λ n e. cc)
sql_type_cases datetime = inl ("timestamptz", refl, λ n e. cc)
sql_type_cases timestamp = inl ("timestamptz", refl, λ n e. cc)
sql_type_cases ltree = inl ("ltree", refl, λ n e. cc)
sql_type_cases (unsupported n) = inr (n, refl, refl)

-- Whether all columns of a table are supported.
unfoldable pub SupportedTable : String × TableSchema → Type 0
SupportedTable (table, t) = All Supported t.columns

-- A column of the table whose type is not supported, and the error that it gives.
unfoldable pub Refuses : ImportError → String × TableSchema → Type 0
Refuses e (table, t) =
    (c : ColumnDefinition) × In c t.columns
    × (n : ℕ) × (c.type ≡ unsupported n)
    × (e ≡ unsupported_type c.type)

module _ (escape : Escapes) where
  ColumnsOutcome : List ColumnDefinition → Type 0
  ColumnsOutcome cs =
      ((lines : List String) × (column_lines escape cs ≡ value lines) × All Supported cs)
      ⊎ ((c : ColumnDefinition) × In c cs
          × (n : ℕ) × (c.type ≡ unsupported n)
          × (column_lines escape cs ≡ fail (unsupported_type c.type)))

  -- The lines of a column and of those behind it, from its type and their lines.
  abbrev lines_of :
      ColumnDefinition
      → Bool
      → Option String
      → Result ImportError (List String)
      → Result ImportError (List String)
  lines_of c is_last t rest =
      on_value (column_text escape c is_last t)
        (λ line. on_value rest (λ lines. value (line ∷ lines)))

  column_lines-outcome : (cs : List ColumnDefinition) → ColumnsOutcome cs
  unfolding ColumnsOutcome column_lines HasSqlType Supported
  column_lines-outcome [] = inl ([], refl, tt)
  column_lines-outcome (c ∷ cs) = elim (sql_type_cases c.type) [
    | inl (s, e, supported) ↦ elim (column_lines-outcome cs) [
      | inl (lines, f, all_supported) ↦ inl (
        _,
        ap (λ t. lines_of c (is_empty cs) t (column_lines escape cs)) e
            ∙ ap (λ r. lines_of c (is_empty cs) (some s) r) f,
        (supported, all_supported),
      )
      | inr (d, m, n, g, f) ↦ inr (
        d,
        inr m,
        n,
        g,
        ap (λ t. lines_of c (is_empty cs) t (column_lines escape cs)) e
            ∙ ap (λ r. lines_of c (is_empty cs) (some s) r) f,
      )
    ]
    | inr (n, g, e) ↦
        inr (c, inl refl, n, g, ap (λ t. lines_of c (is_empty cs) t (column_lines escape cs)) e)
  ]

  -- What one table gives.
  table_outcome :
      (server_name local_schema table : String) (t : TableSchema)
      → ((sql : String) × (get_sql_for_table escape table t local_schema server_name ≡ value sql)
          × SupportedTable (table, t))
        ⊎ ((e : ImportError) × (get_sql_for_table escape table t local_schema server_name ≡ fail e)
            × Refuses e (table, t))
  unfolding get_sql_for_table ColumnsOutcome SupportedTable Refuses
  table_outcome server_name local_schema table t = elim (column_lines-outcome t.columns) [
    | inl (lines, e, s) ↦ inl (
      _,
      ap (λ r. on_value r (λ l. value (statement escape table local_schema server_name l))) e,
      s,
    )
    | inr (c, m, n, g, e) ↦ inr (
      unsupported_type c.type,
      ap (λ r. on_value r (λ l. value (statement escape table local_schema server_name l))) e,
      (c, m, n, g, refl),
    )
  ]

-- Either a statement for each table, of which all columns are supported, or the error of one.
unfoldable pub Outcome : GoMap String TableSchema → Result ImportError (List String) → Type 0
Outcome schema r =
    ((sqls : List String) × (r ≡ value sqls)
      × (length sqls ≡ length schema)
      × All SupportedTable schema)
    ⊎ ((e : ImportError) × (r ≡ fail e) × (p : String × TableSchema) × In p schema × Refuses e p)

abbrev rest_after : String → Result ImportError (List String) → Result ImportError (List String)
rest_after sql r = on_value r (λ rest. value (sql ∷ rest))

module _ (escape : Escapes) (stmt : ImportStatement) (server_name : String) where
  statements-outcome :
      (schema : GoMap String TableSchema)
      → Outcome schema (statements escape stmt server_name schema)
  unfolding Outcome statements
  statements-outcome [] = inl ([], refl, refl, tt)
  statements-outcome ((table, t) ∷ schema) =
      elim (table_outcome escape server_name stmt.local_schema table t) [
        | inl (sql, e, s) ↦ elim (statements-outcome schema) [
          | inl (sqls, f, l, ss) ↦ inl (
            sql ∷ sqls,
            ap (λ r. on_value r (λ q. rest_after q (statements escape stmt server_name schema))) e
                ∙ ap (rest_after sql) f,
            ap (λ n. suc n) l,
            (s, ss),
          )
          | inr (d, f, p, m, r) ↦ inr (
            d,
            ap (λ r. on_value r (λ q. rest_after q (statements escape stmt server_name schema))) e
                ∙ ap (rest_after sql) f,
            p,
            inr m,
            r,
          )
        ]
        | inr (d, e, r) ↦ inr (
          d,
          ap (λ r. on_value r (λ q. rest_after q (statements escape stmt server_name schema))) e,
          (table, t),
          inl refl,
          r,
        )
      ]

  -- SchemaToSql, for a server that exists, gives one statement for each table that the statement
  -- asks for, and then all their columns have a type that the switch lists; or it gives the error
  -- that names the type of a column of one of these tables, which the switch does not list.
  pub schema_to_sql-outcome :
      (schema : GoMap String TableSchema)
      → Outcome
          (keep (is_wanted stmt.list_type stmt.table_list) schema)
          (schema_to_sql escape stmt (some server_name) schema)
  schema_to_sql-outcome schema =
      subst (Outcome (keep (is_wanted stmt.list_type stmt.table_list) schema))
        (sym (schema_to_sql-statements escape stmt server_name schema))
        (statements-outcome (keep (is_wanted stmt.list_type stmt.table_list) schema))
