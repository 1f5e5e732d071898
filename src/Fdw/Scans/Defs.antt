-- ===== src/Fdw/Scans/Defs.antt =====
-- fdw.go: goFdwGetPathKeys, goFdwBeginForeignScan, goFdwIterateForeignScan and
-- goFdwImportForeignSchema. FdwError does not return: it raises the error in Postgres.
use steampipe_postgres_fdw.Prelude.{
  if◌then◌else◌, ◌==◌, nat_eq, string_eq, contains, Go, ok, panic, ◌>>=◌, Result, value, fail, ℕ,
  zero, suc, ◌+◌, String, Bool, true, false, not, ◌||◌, Option, none, some, List, [], ◌∷◌, ◌++◌,
}
use steampipe_postgres_fdw.Prelude.Int.{ℤ, negsuc, int_eq}
use steampipe_postgres_fdw.Prelude.GoMap.{lookup}
use steampipe_postgres_fdw.Proto.{Qual}
use steampipe_postgres_fdw.PathKeys.{PathKey}
use steampipe_postgres_fdw.Hub.Remote.{
  RemoteEnvironment, RemoteError, GlobalConfig, Got, get_iterator, get_path_keys,
}
use steampipe_postgres_fdw.Hub.Factory.Defs.{Factory}
use steampipe_postgres_fdw.Hub.Iterator.Defs.{
  Value, nil_value, ResultRow, Iterator, ScanError, QueryStatus, ready, started, error, complete,
  Outcome, row_read, no_more_rows, failed, Call, waits, returns, panics, start, next,
}
use steampipe_postgres_fdw.Fdw.Sorting.Defs.{SortGroup, get_sort_columns}
use steampipe_postgres_fdw.Fdw.Restrictions.Nodes.{Environment, ConversionInfos, Node}
use steampipe_postgres_fdw.Fdw.Restrictions.Defs.{restrictions_to_quals}

-- The attribute number and the name of a column of the table, as the planner's array has them.
pub record PlannerColumn : Type 0 where
  pub attname : Option String
  pub attnum : ℤ

-- list_append_unique_int
unfoldable pub append_unique : List ℤ → ℤ → List ℤ
append_unique ns n = if contains ns n then ns else ns ++ n ∷ []

abbrev pub named_so : Option String → String → Bool
named_so none key = key == ""
named_so (some s) key = key == s

-- The loop over the columns for one key: the first column of that name ends it. A nil entry is
-- passed over.
unfoldable pub add_attnum : String → List (Option PlannerColumn) → List ℤ → List ℤ
unfolding append_unique contains
add_attnum key [] ns = ns
add_attnum key (none ∷ cs) ns = add_attnum key cs ns
add_attnum key (some c ∷ cs) ns =
    let rest = add_attnum key cs ns in
    if named_so c.attname key then append_unique ns c.attnum else rest

unfoldable pub path_attnums : List String → List (Option PlannerColumn) → List ℤ → List ℤ
unfolding add_attnum
path_attnums [] cs ns = ns
path_attnums (key ∷ keys) cs ns = path_attnums keys cs (add_attnum key cs ns)

-- The loop over the path keys: each becomes its attribute numbers and its rows.
unfoldable pub path_items : List PathKey → List (Option PlannerColumn) → List (List ℤ × ℕ)
unfolding path_attnums
path_items [] cs = []
path_items (k ∷ ks) cs = (path_attnums k.column_names cs [], k.rows) ∷ path_items ks cs

-- goFdwGetPathKeys: the list, or an error of Postgres; a panic is recovered into an error.
pub data PathKeysOutcome : Type 0 where
  items : List (List ℤ × ℕ) → PathKeysOutcome
  path_keys_error : RemoteError → PathKeysOutcome
  path_keys_panic : PathKeysOutcome

unfoldable pub outcome_of :
    List (Option PlannerColumn) → Go (Result RemoteError (List PathKey)) → PathKeysOutcome
unfolding path_items
outcome_of cs panic = path_keys_panic
outcome_of cs (ok (fail e)) = path_keys_error e
outcome_of cs (ok (value keys)) = items (path_items keys cs)

unfoldable pub fdw_get_path_keys :
    RemoteEnvironment
    → GlobalConfig
    → List (Option PlannerColumn)
    → (connection table : String) → Factory
    → PathKeysOutcome × Factory
unfolding outcome_of
fdw_get_path_keys env config cs connection table f =
    if connection == env.internal_schema || connection == env.legacy_command_schema
    then (items [], f)
    else (let got = get_path_keys env config connection table f in (outcome_of cs got.0, got.1))

-- FdwExecState, with what the callbacks read.
pub record ExecState : Type 0 where
  pub limit : ℤ
  pub can_pushdown_all_sort_fields : Bool
  pub pathkeys : List SortGroup
  pub columns : List String

-- if we cannot push down ALL sort fields, do not push down limit
unfoldable pub scan_limit : ExecState → ℤ
scan_limit s = if not s.can_pushdown_all_sort_fields then negsuc 0 else s.limit

-- proto.Quals: a list of pointers.
unfoldable pub qual_pointers : List Qual → List (Option Qual)
qual_pointers [] = []
qual_pointers (q ∷ qs) = some q ∷ qual_pointers qs

-- goFdwBeginForeignScan, up to the iterator, if there is one.
unfoldable pub begin_iterator :
    Environment
    → ConversionInfos
    → ℕ
    → RemoteEnvironment
    → GlobalConfig
    → (explain : Bool) → (connection table : String) → List Node
    → ExecState
    → ℤ
    → Factory
    → Go (Option Got) × Factory
unfolding scan_limit qual_pointers
begin_iterator pg infos base env config explain connection table restrictions s timestamp f =
    let translated = restrictions_to_quals pg infos base restrictions in
    if explain
    then (ok none, f)
    else (let got =
          get_iterator env config connection table (qual_pointers translated.0) translated.1
            s.columns (scan_limit s) (get_sort_columns s.pathkeys) timestamp f in
        (got.0 >>= (λ g. ok (some g)), got.1))

-- What one call of goFdwIterateForeignScan does to the slot of the scan. `empty_slot` is the end of
-- the scan for Postgres; the metadata of the scan is then added to the hub.
pub data Slot : Type 0 where
  tuple : List (Option ℕ) → Slot
  empty_slot : Slot
  slot_waits : Slot
  scan_error : Option ScanError → Slot
  datum_error : String → Slot
  slot_panics : Slot

module _ (val_to_datum : Value → ℕ → Result String ℕ) where
  -- var val = row[column]: a missing column and a nil are NULL. The index is that of the attribute.
  unfoldable pub attribute_datum : Option Value → ℕ → Result String (Option ℕ)
  attribute_datum none i = value none
  attribute_datum (some nil_value) i = value none
  attribute_datum (some v) i = elim (val_to_datum v i) [
    | value d ↦ value (some d)
    | fail e ↦ fail e
  ]

  abbrev pub put_datum :
      Result String (Option ℕ) → Result String (List (Option ℕ)) → Result String (List (Option ℕ))
  put_datum (fail e) rest = fail e
  put_datum (value d) (fail e) = fail e
  put_datum (value d) (value ds) = value (d ∷ ds)

  unfoldable pub row_data : ResultRow → List String → ℕ → Result String (List (Option ℕ))
  unfolding attribute_datum
  row_data row [] i = value []
  row_data row (name ∷ names) i =
      put_datum (attribute_datum (lookup name row) i) (row_data row names (i + 1))

  unfoldable pub filled : Result String (List (Option ℕ)) → Slot
  filled (value ds) = tuple ds
  filled (fail e) = datum_error e

  -- len(row) == 0, and &data[0], which is out of range for a table without attributes.
  unfoldable pub slot_of_row : List String → ResultRow → Slot
  unfolding filled row_data
  slot_of_row attrs [] = empty_slot
  slot_of_row [] (c ∷ row) = slot_panics
  slot_of_row (attr ∷ attrs) (c ∷ row) = filled (row_data (c ∷ row) (attr ∷ attrs) 0)

  unfoldable pub slot_of_outcome : List String → Outcome → Slot
  unfolding slot_of_row
  slot_of_outcome attrs (row_read row) = slot_of_row attrs row
  slot_of_outcome attrs no_more_rows = empty_slot
  slot_of_outcome attrs (failed none) = empty_slot
  slot_of_outcome attrs (failed (some e)) = scan_error (some e)

  unfoldable pub slot_of_call : List String → Iterator → Call → Slot × Iterator
  unfolding slot_of_outcome
  slot_of_call attrs it waits = (slot_waits, it)
  slot_of_call attrs it panics = (slot_panics, it)
  slot_of_call attrs it (returns o after) = (slot_of_outcome attrs o, after)

  abbrev pub is_ready : QueryStatus → Bool
  is_ready ready = true
  is_ready started = false
  is_ready error = false
  is_ready complete = false

  abbrev pub after_start : Result String Iterator → Iterator → Iterator
  after_start (value after) it = after
  after_start (fail e) it = it

  -- StartScan, which drops the error of Start, and so reports none.
  unfoldable pub started_if_ready : Option String → Iterator → Iterator
  unfolding start
  started_if_ready e it = if is_ready it.status then after_start (start e it) it else it

  module _ (unmarshal : String → Result String Value) (timestamp_string : String → String) where
    -- goFdwIterateForeignScan, for a scan iterator. `e` is what executing the query returns.
    unfoldable pub iterate_foreign_scan : List String → Option String → Iterator → Slot × Iterator
    unfolding slot_of_call started_if_ready
    iterate_foreign_scan attrs e it =
        let running = started_if_ready e it in
        slot_of_call attrs running (next unmarshal timestamp_string running)

    abbrev pub collected :
        Slot × Iterator → List (List (Option ℕ)) × Iterator → List (List (Option ℕ)) × Iterator
    collected (tuple ds, after) rest = (ds ∷ rest.0, rest.1)
    collected (empty_slot, after) rest = ([], after)
    collected (slot_waits, after) rest = ([], after)
    collected (scan_error e, after) rest = ([], after)
    collected (datum_error e, after) rest = ([], after)
    collected (slot_panics, after) rest = ([], after)

    -- Postgres calls goFdwIterateForeignScan until a call gives no tuple, at most `calls` times.
    unfoldable pub tuples_of_scan :
        (calls : ℕ) → List String → Option String → Iterator → List (List (Option ℕ)) × Iterator
    unfolding iterate_foreign_scan
    tuples_of_scan zero attrs e it = ([], it)
    tuples_of_scan (suc calls) attrs e it =
        let got = iterate_foreign_scan attrs e it in
        collected got (tuples_of_scan calls attrs e got.1)
