-- ===== src/Fdw/Planner/Columns.antt =====
-- The columns of a target list, the options of a server, and the width that goFdwGetRelSize gives.
use steampipe_postgres_fdw.Prelude.{
  if◌then◌else◌, length, ◌==◌, nat_eq, string_eq, In, Distinct, value, ◌*◌, String, ◌≡◌, refl, ap,
  ◌∙◌, subst, ◌↔◌, ◌⊎◌, inl, inr, Option, none, some, List, [], ◌∷◌,
}
use steampipe_postgres_fdw.Prelude.GoMap.{
  GoMap, keys, IsMap, insert, lookup, In-keys-insert, IsMap-insert, In-insert, In-insert_self,
  lookup-insert,
}
use steampipe_postgres_fdw.Fdw.Planner.Defs.{
  value_map, cstring_list_to_go_array, options_loop, get_options, get_rel_size, PlannerHub,
  target_columns, after_process, after_load, fdw_get_rel_size,
}

value_map-IsMap :
    (values : List String) (m : GoMap {0} String Unit) → IsMap m → IsMap (value_map values m)
unfolding value_map
value_map-IsMap [] m h = h
value_map-IsMap (s ∷ values) m h = value_map-IsMap values (insert s tt m) (IsMap-insert s tt m h)

-- The keys are those that were there and the values of the list.
In-value_map :
    (values : List String) (m : GoMap {0} String Unit) (c : String)
    → In c (keys (value_map values m)) ↔ (In c values ⊎ In c (keys m))
unfolding value_map
In-value_map [] m c = ((λ h. inr h), (λ h. elim h [ inl e ↦ elim e [ ] | inr g ↦ g ]))
In-value_map (s ∷ values) m c = (
  (λ h. elim ((In-value_map values (insert s tt m) c).0 h) [
    | inl g ↦ inl (inr g)
    | inr g ↦ elim (In-keys-insert s c tt m g) [ inl p ↦ inl (inl p) | inr k ↦ inr k ]
  ]),
  (λ h. (In-value_map values (insert s tt m) c).1 (elim h [
    | inl g ↦ elim g [
      | inl p ↦ inr (subst (λ d. In d (keys (insert s tt m))) p (In-insert_self s tt m))
      | inr k ↦ inl k
    ]
    | inr k ↦ inr (In-insert s c tt m k)
  ])),
)

-- CStringListToGoArray gives each value of the list once.
pub cstring_list_to_go_array-Distinct :
    (values : List String)
    → Distinct (cstring_list_to_go_array values)
      × ((c : String) → In c (cstring_list_to_go_array values) ↔ In c values)
unfolding cstring_list_to_go_array
cstring_list_to_go_array-Distinct values = (
  value_map-IsMap values [] tt,
  (λ c. (
    (λ h. elim ((In-value_map values [] c).0 h) [ inl g ↦ g | inr e ↦ elim e [ ] ]),
    (λ h. (In-value_map values [] c).1 (inl h)),
  )),
)

-- Where the options are taken and the config is loaded, goFdwGetRelSize gives a million rows with
-- 100 bytes for each of the different columns of the target list.
pub fdw_get_rel_size_lem :
    (hub : PlannerHub) (server_options : List (String × String)) (connection : String)
    (target_list : List String)
    → hub.process_options (get_options server_options) connection ≡ none
    → hub.load_connection_config ≡ none
    → (columns : List String) × (fdw_get_rel_size hub server_options connection (some target_list)
        ≡ value (record { rows = 1000000; width = 100 * length columns; tuples = 0 }))
      × Distinct columns
      × ((c : String) → In c columns ↔ In c target_list)
unfolding fdw_get_rel_size get_rel_size target_columns
fdw_get_rel_size_lem hub server_options connection target_list o l = (
  cstring_list_to_go_array target_list,
  ap (after_process hub (some target_list)) o ∙ ap (after_load hub (some target_list)) l,
  (cstring_list_to_go_array-Distinct target_list).0,
  (cstring_list_to_go_array-Distinct target_list).1,
)

-- The last value that a list gives a name.
unfoldable pub last_value : String → List (String × String) → Option String → Option String
last_value name [] found = found
last_value name ((k, v) ∷ opts) found = last_value name opts (if k == name then some v else found)

lookup-options_loop :
    (name : String) (opts : List (String × String)) (m : GoMap String String)
    → lookup name (options_loop opts m) ≡ last_value name opts (lookup name m)
unfolding options_loop last_value
lookup-options_loop name [] m = refl
lookup-options_loop name ((k, v) ∷ opts) m =
    lookup-options_loop name opts (insert k v m)
    ∙ ap (last_value name opts) (lookup-insert k name v m)

-- getOptions holds for each name the last value that the list gives it.
pub lookup-get_options :
    (name : String) (opts : List (String × String))
    → lookup name (get_options opts) ≡ last_value name opts none
unfolding get_options lookup
lookup-get_options name opts = lookup-options_loop name opts []
