-- ===== src/Fdw/Sorting/Tests.antt =====
-- A sort of three columns, of which the plugin supports the first two as asked.
use steampipe_postgres_fdw.Prelude.{
  take, nat_eq, string_eq, String, ◌≡◌, refl, true, false, List, [], ◌∷◌,
}
use steampipe_postgres_fdw.Prelude.GoMap.{GoMap, lookup}
use steampipe_postgres_fdw.Proto.{SortOrder, order_asc, order_desc, order_all}
use steampipe_postgres_fdw.Fdw.Sorting.Defs.{
  SortGroup, required_order, or_none, order_supports, can_push_group, push_down_list, can_sort,
}

abbrev fields : GoMap String SortOrder
fields = ("id", order_asc) ∷ ("name", order_all) ∷ ("region", order_desc) ∷ []

abbrev groups : List SortGroup
groups =
    record { attname = "id"; reversed = false }
    ∷ record { attname = "name"; reversed = true }
    ∷ record { attname = "region"; reversed = false }
    ∷ []

two_pushed : can_sort fields groups ≡ take 2 groups
unfolding can_sort push_down_list can_push_group or_none order_supports required_order lookup
two_pushed = refl
