-- ===== src/Hub/Quals/Pushdown.antt =====
-- `shouldPushdownLimit`: the limit is passed on exactly when the plugin handles every restriction.
use steampipe_postgres_fdw.Prelude.{
  ℕ, zero, suc, String, Bool, true, ◌&&◌, Option, none, some, List, [], ◌∷◌, ◌++◌, if◌then◌else◌,
  ◌≡◌, ◌↔◌, refl, sym, ◌∙◌, arith, contains→In, In→contains, string_eq, ◌==◌, Bool-cases, ==_iff,
  inl, inr, ap, In, All,
}
use steampipe_postgres_fdw.Prelude.GoMap.{GoMap, lookup, insert, lookup-insert}
use steampipe_postgres_fdw.Proto.{Qual, KeyColumn, TableSchema, Schema}
use steampipe_postgres_fdw.Hub.Quals.Defs.{
  append_qual, build_loop, build_qual_map, add_key_columns, key_column_map, or_empty,
  operators_supported, column_supported, quals_supported, table_supported, should_pushdown_limit,
}
use steampipe_postgres_fdw.Hub.Quals.Grouping.{present}

-- The declaration that counts for a column: the last one of that name, a get key column before a
-- list key column.
abbrev pub or_else : Option KeyColumn → Option KeyColumn → Option KeyColumn
or_else (some k) o = some k
or_else none o = o

abbrev pub last_named : String → List KeyColumn → Option KeyColumn
last_named c [] = none
last_named c (k ∷ ks) = or_else (last_named c ks) (if k.name == c then some k else none)

abbrev pub declared_key : TableSchema → String → Option KeyColumn
declared_key t c =
    or_else (last_named c t.get_call_key_column_list)
      (last_named c (or_empty t.list_call_key_column_list))

-- The plugin handles the qual: its column is declared a key column with that operator.
abbrev pub IsHandled : TableSchema → Qual → Type 0
IsHandled t q = (k : KeyColumn) × (declared_key t q.field_name ≡ some k) × In q.operator k.operators

or_else_assoc : (a b c : Option KeyColumn) → or_else a (or_else b c) ≡ or_else (or_else a b) c
or_else_assoc none b c = refl
or_else_assoc (some a) b c = refl

lookup-add_key_columns :
    (c : String) (m : GoMap String KeyColumn) (ks : List KeyColumn)
    → lookup c (add_key_columns m ks) ≡ or_else (last_named c ks) (lookup c m)
unfolding add_key_columns
lookup-add_key_columns c m [] = refl
lookup-add_key_columns c m (k ∷ ks) =
    lookup-add_key_columns c (insert k.name k m) ks
    ∙ rw lookup-insert (elim (Bool-cases (k.name == c)) [
      | inl y ↦ rw y (or_else_assoc (last_named c ks) (some k) (lookup c m))
      | inr n ↦ rw n (or_else_assoc (last_named c ks) none (lookup c m))
    ])

or_else-none : (o : Option KeyColumn) → or_else o none ≡ o
or_else-none none = refl
or_else-none (some k) = refl

lookup-key_column_map :
    (t : TableSchema) (c : String) → lookup c (key_column_map t) ≡ declared_key t c
unfolding key_column_map lookup
lookup-key_column_map t c =
    lookup-add_key_columns c _ t.get_call_key_column_list
    ∙ ap (or_else (last_named c t.get_call_key_column_list)) (
        lookup-add_key_columns c [] (or_empty t.list_call_key_column_list)
        ∙ or_else-none (last_named c (or_empty t.list_call_key_column_list)))

module _ (keys : GoMap String KeyColumn) where
  abbrev handled : Qual → Bool
  handled q = column_supported (lookup q.field_name keys) (q ∷ [])

  abbrev all_handled : List Qual → Bool
  all_handled [] = true
  all_handled (q ∷ qs) = handled q && all_handled qs

  operators_supported-append :
      (k : KeyColumn) (ps : List Qual) (q : Qual)
      → operators_supported k (ps ++ q ∷ [])
        ≡ (operators_supported k ps && operators_supported k (q ∷ []))
  unfolding operators_supported
  operators_supported-append k [] q = refl
  operators_supported-append k (p ∷ ps) q = ground (arith, operators_supported-append k ps q)

  column_supported-append :
      (o : Option KeyColumn) (ps : List Qual) (q : Qual)
      → column_supported o (ps ++ q ∷ []) ≡ (column_supported o ps && column_supported o (q ∷ []))
  column_supported-append none ps q = refl
  column_supported-append (some k) ps q = operators_supported-append k ps q

  quals_supported-insert :
      (m : GoMap String (List Qual)) (q : Qual) (o : Option (List Qual))
      → lookup q.field_name m ≡ o
      → quals_supported keys (insert q.field_name (append_qual o q) m)
        ≡ (quals_supported keys m && handled q)
  unfolding quals_supported insert lookup
  quals_supported-insert [] q none e = ground arith
  quals_supported-insert [] q (some w) e = cc
  quals_supported-insert ((j, w) ∷ m) q o e = elim (Bool-cases (j == q.field_name)) [
    | inl y ↦
        rw (y, ← the_list y)
          (ground (
            arith,
            column_supported-append (lookup j keys) w q,
            ap (λ x. column_supported (lookup x keys) (q ∷ [])) ((==_iff j q.field_name).0 y),
          ))
    | inr n ↦ rw n (ground (arith, quals_supported-insert m q o (rw n at e)))
  ]
    where
      the_list : (j == q.field_name) ≡ true → some w ≡ o
      the_list y = rw y at e

  quals_supported-build_loop :
      (m : GoMap String (List Qual)) (qs : List (Option Qual))
      → quals_supported keys (build_loop m qs)
        ≡ (quals_supported keys m && all_handled (present qs))
  unfolding build_loop
  quals_supported-build_loop m [] = ground arith
  quals_supported-build_loop m (none ∷ qs) = quals_supported-build_loop m qs
  quals_supported-build_loop m (some q ∷ qs) = ground (
    arith,
    quals_supported-insert m q (lookup q.field_name m) refl,
    quals_supported-build_loop (insert q.field_name (append_qual (lookup q.field_name m) q) m) qs,
  )

module _ (t : TableSchema) where
  handled→ : (q : Qual) → handled (key_column_map t) q ≡ true → IsHandled t q
  unfolding operators_supported
  handled→ q = rw (lookup-key_column_map t q.field_name) (go (declared_key t q.field_name) refl)
    where
      go :
          (o : Option KeyColumn)
          → declared_key t q.field_name ≡ o
          → column_supported o (q ∷ []) ≡ true
          → IsHandled t q
      go none e h = cc
      go (some k) e h = (k, e, contains→In k.operators q.operator (ground arith))

  handled← : (q : Qual) → IsHandled t q → handled (key_column_map t) q ≡ true
  unfolding operators_supported
  handled← q (k, e, m) =
      rw (lookup-key_column_map t q.field_name, e)
        (ground (arith, In→contains k.operators q.operator m))

  All-handled→ : (qs : List Qual) → all_handled (key_column_map t) qs ≡ true → All (IsHandled t) qs
  All-handled→ [] h = tt
  All-handled→ (q ∷ qs) h = (handled→ q (ground arith), All-handled→ qs (ground arith))

  All-handled← : (qs : List Qual) → All (IsHandled t) qs → all_handled (key_column_map t) qs ≡ true
  All-handled← [] h = refl
  All-handled← (q ∷ qs) h = ground (arith, handled← q h.0, All-handled← qs h.1)

  quals_supported-build_qual_map :
      (quals : List (Option Qual))
      → quals_supported (key_column_map t) (build_qual_map quals)
        ≡ all_handled (key_column_map t) (present quals)
  unfolding build_qual_map quals_supported
  quals_supported-build_qual_map quals = quals_supported-build_loop (key_column_map t) [] quals

-- Postgres has no restriction left to check itself, and the plugin handles every qual.
abbrev pub HandlesAll : Option TableSchema → List (Option Qual) → Type 0
HandlesAll o quals = (t : TableSchema) × (o ≡ some t) × All (IsHandled t) (present quals)

table→ :
    (o : Option TableSchema) (quals : List (Option Qual))
    → table_supported o (build_qual_map quals) ≡ true
    → HandlesAll o quals
table→ none quals h = cc
table→ (some t) quals h =
    (t, refl, All-handled→ t (present quals) (sym (quals_supported-build_qual_map t quals) ∙ h))

table← :
    (o : Option TableSchema) (quals : List (Option Qual))
    → HandlesAll o quals
    → table_supported o (build_qual_map quals) ≡ true
table← o quals (t, e, h) =
    rw e (quals_supported-build_qual_map t quals ∙ All-handled← t (present quals) h)

-- The limit of a query is passed on to the plugin exactly when every restriction became a qual,
-- the table is in the schema, and for each qual the column is declared a key column, in the
-- declaration that counts, with the qual's operator. Otherwise the plugin could stop before it
-- has the rows that Postgres still filters.
pub should_pushdown_limit_iff :
    (table : String) (quals : List (Option Qual)) (unhandled : ℕ) (schema : Schema)
    → (should_pushdown_limit table (build_qual_map quals) unhandled schema ≡ true)
      ↔ ((unhandled ≡ 0) × HandlesAll (lookup table schema.tables) quals)
unfolding should_pushdown_limit
should_pushdown_limit_iff table quals zero schema = (
  λ h. (refl, table→ (lookup table schema.tables) quals h),
  λ h. table← (lookup table schema.tables) quals h.1,
)
should_pushdown_limit_iff table quals (suc n) schema =
    (λ h. absurd (ground arith), λ h. absurd (ground (arith, h.0)))
