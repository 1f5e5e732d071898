-- ===== src/Fdw/Sorting/Defs.antt =====
-- fdw.go: the sort groups of a query that are pushed down, and the sort columns of a scan.
use steampipe_postgres_fdw.Prelude.{
  if◌then◌else◌, length, ◌==◌, nat_eq, string_eq, String, Bool, true, false, Option, none, some,
  List, [], ◌∷◌,
}
use steampipe_postgres_fdw.Prelude.GoMap.{GoMap, lookup, insert}
use steampipe_postgres_fdw.Proto.{
  SortOrder, order_none, order_asc, order_desc, order_all, ColumnDefinition,
}

-- FdwDeparsedSortGroup, with what this code reads.
pub record SortGroup : Type 0 where
  pub attname : String
  pub reversed : Bool

-- proto.SortColumn
pub record SortColumn : Type 0 where
  pub column : String
  pub order : SortOrder

-- RemoteHub.GetSortableFields, the loop over the columns of the table.
unfoldable pub sortable_fields :
    List ColumnDefinition → GoMap String SortOrder → GoMap String SortOrder
sortable_fields [] m = m
sortable_fields (c ∷ columns) m = sortable_fields columns (insert c.name c.sort_order m)

unfoldable pub required_order : SortGroup → SortOrder
required_order g = if g.reversed then order_desc else order_asc

-- sortableFields[columnName]: the zero value, if the column is not there.
unfoldable pub or_none : Option SortOrder → SortOrder
or_none none = order_none
or_none (some o) = o

-- supportedOrder == requiredOrder || supportedOrder == proto.SortOrder_All
unfoldable pub order_supports : (supported required : SortOrder) → Bool
order_supports order_none order_none = true
order_supports order_none order_asc = false
order_supports order_none order_desc = false
order_supports order_none order_all = false
order_supports order_asc order_none = false
order_supports order_asc order_asc = true
order_supports order_asc order_desc = false
order_supports order_asc order_all = false
order_supports order_desc order_none = false
order_supports order_desc order_asc = false
order_supports order_desc order_desc = true
order_supports order_desc order_all = false
order_supports order_all required = true

unfoldable pub can_push_group : GoMap String SortOrder → SortGroup → Bool
unfolding or_none order_supports required_order
can_push_group fields g = order_supports (or_none (lookup g.attname fields)) (required_order g)

-- The loop of goFdwCanSort, which a break ends.
unfoldable pub push_down_list : GoMap String SortOrder → List SortGroup → List SortGroup
unfolding can_push_group
push_down_list fields [] = []
push_down_list fields (g ∷ groups) =
    let rest = push_down_list fields groups in if can_push_group fields g then g ∷ rest else []

-- goFdwCanSort. A table without sortable fields is a return before the loop.
unfoldable pub can_sort : GoMap String SortOrder → List SortGroup → List SortGroup
unfolding push_down_list
can_sort fields groups = if length fields == 0 then [] else push_down_list fields groups

-- getSortColumns
unfoldable pub get_sort_columns : List SortGroup → List SortColumn
unfolding required_order
get_sort_columns [] = []
get_sort_columns (g ∷ groups) =
    record { column = g.attname; order = required_order g } ∷ get_sort_columns groups
