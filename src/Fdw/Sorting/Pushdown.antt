-- ===== src/Fdw/Sorting/Pushdown.antt =====
-- fdw.go: goFdwCanSort pushes down the longest prefix of the sort that the plugin supports.
use steampipe_postgres_fdw.Prelude.{
  nat_eq, string_eq, All, String, ◌≡◌, true, false, List, [], ◌∷◌, ◌++◌,
}
use steampipe_postgres_fdw.Prelude.GoMap.{GoMap, lookup}
use steampipe_postgres_fdw.Proto.{SortOrder}
use steampipe_postgres_fdw.Fdw.Sorting.Defs.{
  SortGroup, SortColumn, or_none, order_supports, can_push_group, get_sort_columns,
}

-- The group behind those that are pushed down, if there is one, is not supported.
unfoldable pub StopsAt : GoMap String SortOrder → List SortGroup → Type 0
StopsAt fields [] = Unit
StopsAt fields (g ∷ rest) = can_push_group fields g ≡ false

-- A sort column of a scan is one that the plugin supports in its order.
unfoldable pub IsSupported : GoMap String SortOrder → SortColumn → Type 0
IsSupported fields c = order_supports (or_none (lookup c.column fields)) c.order ≡ true

-- `pushed` is the longest supported prefix of `groups`.
pub record IsLongest (fields : GoMap String SortOrder) (groups pushed : List SortGroup)
    : Type 0 where
  pub rest : List SortGroup
  pub joined : pushed ++ rest ≡ groups
  pub stops : StopsAt fields rest
  pub supported : All (IsSupported fields) (get_sort_columns pushed)
