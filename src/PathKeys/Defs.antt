-- ===== src/PathKeys/Defs.antt =====
-- types/pathkeys.go, the definitions.
use steampipe_postgres_fdw.Prelude.{
  ℕ, ◌+◌, ◌-◌, ◌*◌, String, Bool, true, false, not, Option, none, some, List, [], ◌∷◌, ◌++◌,
  if◌then◌else◌, ltb, length, contains, ◌==◌, Go, ok, panic, string_eq, nat_eq, set, replicate,
  ◌>>=◌,
}
use steampipe_postgres_fdw.Proto.{
  Require, required, optional, any_of, other, KeyColumn, KeyColumnsSet,
}

pub record PathKey : Type 0 where
  pub column_names : List String
  pub rows : ℕ

abbrev pub required_key_column_base_cost : ℕ
required_key_column_base_cost = 1

abbrev pub optional_key_column_base_cost : ℕ
optional_key_column_base_cost = 100

abbrev pub key_column_only_cost_multiplier : ℕ
key_column_only_cost_multiplier = 2

unfoldable pub key_column_array_contains_column : List KeyColumn → String → Bool
key_column_array_contains_column [] c = false
key_column_array_contains_column (k ∷ ks) c =
    let rest = key_column_array_contains_column ks c in if k.name == c then true else rest

-- allColumnsExceptKeyColumns[idx] = c
unfoldable pub write : List String → ℕ → String → Go (List String)
write slots idx c = if ltb idx (length slots) then ok (set slots idx c) else panic

-- The loop of `removeKeyColumnsFromAllColumns`, over the slice and the index.
unfoldable pub remove_loop : List KeyColumn → List String → List String → ℕ → Go (List String)
remove_loop keys [] slots idx = ok slots
remove_loop keys (c ∷ cs) slots idx =
    let skip = remove_loop keys cs slots idx in
    let store = write slots idx c >>= (λ filled. remove_loop keys cs filled (idx + 1)) in
    if not (key_column_array_contains_column keys c) then store else skip

-- `make` panics at a negative length; the slots hold "" until they are written.
unfoldable pub remove_key_columns_from_all_columns : List KeyColumn → List String → Go (List String)
unfolding remove_loop write
remove_key_columns_from_all_columns keys all =
    if ltb (length all) (length keys)
    then panic
    else remove_loop keys all (replicate (length all - length keys) "") 0

pub record Keys : Type 0 where
  pub required_keys : List String
  pub optional_keys : List String
  pub any_of_keys : List String

unfoldable pub collect_one : Require → String → Keys → Keys
collect_one required n k = record k { required_keys = k.required_keys ++ n ∷ [] }
collect_one optional n k = record k { optional_keys = k.optional_keys ++ n ∷ [] }
collect_one any_of n k = record k { any_of_keys = k.any_of_keys ++ n ∷ [] }
collect_one (other _) n k = k

unfoldable pub collect : Keys → List KeyColumn → Keys
unfolding collect_one
collect k [] = k
collect k (c ∷ cs) = collect (collect_one c.require c.name k) cs

unfoldable pub any_of_paths : List String → List String → List (List String)
any_of_paths [] required_keys = []
any_of_paths (a ∷ rest) required_keys = (a ∷ required_keys) ∷ any_of_paths rest required_keys

-- One path for each any-of key, or one for all required keys, or none.
unfoldable pub required_column_paths : Keys → List (List String)
unfolding any_of_paths
required_column_paths k =
    if ltb 0 (length k.any_of_keys)
    then any_of_paths k.any_of_keys k.required_keys
    else if ltb 0 (length k.required_keys)
    then k.required_keys ∷ []
    else []

unfoldable pub base_cost : List (List String) → ℕ
base_cost required_paths =
    if ltb 0 (length required_paths)
    then required_key_column_base_cost
    else optional_key_column_base_cost

unfoldable pub with_optional : List (List String) → String → List (List String)
with_optional [] col = []
with_optional (p ∷ ps) col = (p ++ col ∷ []) ∷ with_optional ps col

-- The loop over the optional keys; `column_paths` grows at its end.
unfoldable pub optional_loop :
    List (List String) → List String → List (List String) → List (List String)
unfolding with_optional
optional_loop required_paths [] column_paths = column_paths
optional_loop required_paths (col ∷ cols) column_paths = optional_loop required_paths cols (
    column_paths
    ++ (if ltb 0 (length required_paths)
        then with_optional required_paths col
        else (col ∷ []) ∷ []))

unfoldable pub key_columns_to_column_path : List KeyColumn → List (List String) × ℕ
unfolding collect required_column_paths base_cost optional_loop
key_columns_to_column_path [] = ([], 0)
key_columns_to_column_path (c ∷ cs) =
    let k =
      collect (record { required_keys = []; optional_keys = []; any_of_keys = [] }) (c ∷ cs) in
    let paths = required_column_paths k in
    (optional_loop paths k.optional_keys paths, base_cost paths)

-- The paths of one column set: alone, and with each column that it lacks.
unfoldable pub with_other_columns : List String → List String → ℕ → List PathKey
unfolding contains
with_other_columns s [] cost = []
with_other_columns s (c ∷ cs) cost =
    let rest = with_other_columns s cs cost in
    if not (contains s c) then record { column_names = c ∷ s; rows = cost } ∷ rest else rest

unfoldable pub column_paths_to_path_keys : List (List String) → List String → ℕ → List PathKey
unfolding with_other_columns
column_paths_to_path_keys [] all cost = []
column_paths_to_path_keys (s ∷ ss) all cost =
    record { column_names = s; rows = cost * key_column_only_cost_multiplier }
    ∷ (with_other_columns s all cost ++ column_paths_to_path_keys ss all cost)

unfoldable pub key_columns_to_path_keys : List KeyColumn → List String → Go (List PathKey)
unfolding key_columns_to_column_path remove_key_columns_from_all_columns column_paths_to_path_keys
key_columns_to_path_keys keys all =
    let (paths, cost) = key_columns_to_column_path keys in
    remove_key_columns_from_all_columns keys all >>= λ others.
    ok (column_paths_to_path_keys paths others cost)

unfoldable pub single_paths : List String → List (List String)
single_paths [] = []
single_paths (c ∷ cs) = (c ∷ []) ∷ single_paths cs

abbrev optional_path : Option (List String) → List (List String)
optional_path none = []
optional_path (some p) = p ∷ []

unfoldable pub legacy_key_columns_to_column_paths : Option KeyColumnsSet → List (List String)
unfolding single_paths
legacy_key_columns_to_column_paths none = []
legacy_key_columns_to_column_paths (some k) =
    (if k.single == "" then [] else (k.single ∷ []) ∷ [])
    ++ (single_paths k.any ++ optional_path k.all)

unfoldable pub legacy_key_columns_to_path_keys :
    Option KeyColumnsSet → Option KeyColumnsSet → List String → List PathKey
unfolding legacy_key_columns_to_column_paths column_paths_to_path_keys
legacy_key_columns_to_path_keys required_columns optional_columns all =
    let required_sets = legacy_key_columns_to_column_paths required_columns in
    let optional_sets = legacy_key_columns_to_column_paths optional_columns in
    if length required_sets + length optional_sets == 0
    then []
    else if length required_sets == 0
    then column_paths_to_path_keys optional_sets all 1
    else column_paths_to_path_keys required_sets all 1
