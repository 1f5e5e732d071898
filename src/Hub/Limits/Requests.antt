-- ===== src/Hub/Limits/Requests.antt =====
-- From the limit of a query to the limits that its execute request carries.
use steampipe_postgres_fdw.Prelude.{
  if◌then◌else◌, Bool-cases, Option-cases, ◌==◌, nat_eq, string_eq, In, contains, ok, ok_injective,
  Result, value, value_injective, ℕ, String, ◌≡◌, refl, sym, ap, ◌∙◌, subst, inl, inr, Bool, true,
  false, not, ◌&&◌, ◌||◌, Option, none, some, List, [], ◌∷◌, arith,
}
use steampipe_postgres_fdw.Prelude.Int.{ℤ, int_eq}
use steampipe_postgres_fdw.Prelude.GoMap.{
  GoMap, lookup, insert, keys, IsMap, IsMap-insert, lookup-insert, lookup→In,
}
use steampipe_postgres_fdw.Proto.{Schema, SchemaMode, static, dynamic, other_mode, Qual}
use steampipe_postgres_fdw.Hub.Quals.{should_pushdown_limit}
use steampipe_postgres_fdw.Hub.Limits.Defs.{
  no_limit, is_static, is_dynamic, limit_for_all, limit_for_one, add_limits, limits_for_schema,
  limits_of_result, build_connection_limit_map, ExecuteConnectionData, connection_data,
  execute_connection_data, request_connection_data, new_execute_request,
}

-- Two tests with the same outcome.
choose {ℓ} :
    {A : Type ℓ} (a b : Bool) (x y : A)
    → (if b then x else (if a then x else y)) ≡ (if a || b then x else y)
choose true true x y = refl
choose true false x y = refl
choose false true x y = refl
choose false false x y = refl

lookup-add_limits :
    (names : List String) (limit : ℤ) (m : GoMap String ℤ) (c : String)
    → lookup c (add_limits names limit m) ≡ (if contains names c then some limit else lookup c m)
unfolding add_limits contains
lookup-add_limits [] limit m c = refl
lookup-add_limits (n ∷ names) limit m c =
    lookup-add_limits names limit (insert n limit m) c
    ∙ rw (lookup-insert n c limit m) (choose (n == c) (contains names c) (some limit) (lookup c m))

IsMap-add_limits :
    (names : List String) (limit : ℤ) (m : GoMap String ℤ)
    → IsMap m
    → IsMap (add_limits names limit m)
unfolding add_limits
IsMap-add_limits [] limit m d = d
IsMap-add_limits (n ∷ names) limit m d =
    IsMap-add_limits names limit (insert n limit m) (IsMap-insert n limit m d)

absent : (n c : String) (m : GoMap String ℤ) → n ≡ c → ¬ In n (keys m) → lookup c m ≡ none
absent n c m p ne = elim (Option-cases (lookup c m)) [
  | inl h ↦ h
  | inr h ↦ absurd (ne (subst (λ x. In x (keys m)) (sym p) (lookup→In c h.0 m h.1)))
]

-- Whether the quals are looked at before a limit is passed on.
unfoldable pub is_checked : SchemaMode → Bool
is_checked static = true
is_checked dynamic = true
is_checked (other_mode name) = false

-- The limit that a connection should be sent.
unfoldable pub request_limit : SchemaMode → (pushed : Bool) → ℤ → Option ℤ
unfolding is_checked
request_limit mode pushed limit =
    if limit == no_limit then none else if is_checked mode && not pushed then none else some limit

abbrev as_sent : ℤ → Option ℤ
as_sent limit = if not (limit == no_limit) then some limit else none

abbrev pub the_data : Option ℤ → ℤ → Bool → ExecuteConnectionData
the_data l t e = record { limit = l; cache_ttl = t; cache_enabled = e }

sent-limit :
    (mode : SchemaMode) (pushed : Bool) (limit : ℤ)
    → as_sent (limit_for_one mode pushed (limit_for_all mode pushed limit))
      ≡ request_limit mode pushed limit
unfolding limit_for_one limit_for_all request_limit is_checked is_static is_dynamic
sent-limit static true limit = ground arith
sent-limit static false limit = ground arith
sent-limit dynamic true limit = ground arith
sent-limit dynamic false limit = ground arith
sent-limit (other_mode name) true limit = ground arith
sent-limit (other_mode name) false limit = ground arith

module _ (cache_ttl : String → ℤ) (cache_enabled : String → Bool) where
  data_or : String → Option ℤ → Option ExecuteConnectionData → Option ExecuteConnectionData
  unfolding connection_data
  data_or c (some limit) o = some (connection_data cache_ttl cache_enabled c limit)
  data_or c none o = o

  lookup-execute :
      (c : String) (limits : GoMap String ℤ) (req : GoMap String ExecuteConnectionData)
      → IsMap limits
      → lookup c (execute_connection_data cache_ttl cache_enabled limits req)
        ≡ data_or c (lookup c limits) (lookup c req)
  unfolding execute_connection_data data_or lookup
  lookup-execute c [] req d = refl
  lookup-execute c ((n, l) ∷ limits) req d =
      lookup-execute c limits (insert n (connection_data cache_ttl cache_enabled n l) req) d.1
      ∙ elim (Bool-cases (n == c)) [
        | inl y ↦
            rw
              (
                lookup-insert n c (connection_data cache_ttl cache_enabled n l) req,
                y,
                absent n c limits ((string_eq.same_iff n c).0 y) d.0,
              )
              (ap (λ x. some (connection_data cache_ttl cache_enabled x l))
                ((string_eq.same_iff n c).0 y))
        | inr f ↦ rw (lookup-insert n c (connection_data cache_ttl cache_enabled n l) req, f) refl
      ]

  request_of_limit :
      (c : String) (mode : SchemaMode) (pushed : Bool) (limit : ℤ)
      → connection_data cache_ttl cache_enabled c
          (limit_for_one mode pushed (limit_for_all mode pushed limit))
        ≡ record {
          limit = request_limit mode pushed limit;
          cache_ttl = cache_ttl c;
          cache_enabled = cache_enabled c;
        }
  unfolding connection_data
  request_of_limit c mode pushed limit =
      ap (λ l. the_data l (cache_ttl c) (cache_enabled c)) (sent-limit mode pushed limit)

  request-limits_for_schema :
      (table : String) (qual_map : GoMap String (List Qual)) (unhandled : ℕ) (names : List String)
      (limit : ℤ) (schema : Schema) (c : String)
      → lookup c (
          request_connection_data cache_ttl cache_enabled
            (limits_for_schema table qual_map unhandled names limit schema))
        ≡ (if contains names c
            then some (
                the_data
                  (request_limit schema.mode
                    (should_pushdown_limit table qual_map unhandled schema)
                    limit)
                  (cache_ttl c)
                  (cache_enabled c))
            else none)
  unfolding request_connection_data limits_for_schema data_or lookup
  request-limits_for_schema table qual_map unhandled names limit schema c =
      let pushed = should_pushdown_limit table qual_map unhandled schema in
      let l = limit_for_one schema.mode pushed (limit_for_all schema.mode pushed limit) in
      lookup-execute c (add_limits names l []) [] (IsMap-add_limits names l [] tt)
      ∙ rw (lookup-add_limits names l [] c) (elim (Bool-cases (contains names c)) [
        | inl y ↦ rw y (ap some (request_of_limit c schema.mode pushed limit))
        | inr n ↦ rw n refl
      ])

  -- The execute request of a scan, made from the limit map of buildConnectionLimitMap, has data
  -- for exactly the connections of the scan, with the cache settings of each. The limit in it is
  -- that of the query, and none if the query has none or if, in a static or dynamic schema, the
  -- schema of the first connection does not let the limit be pushed down.
  pub execute_request_limits :
      (get_schema : String → Result String Schema) (table : String)
      (qual_map : GoMap String (List Qual)) (unhandled : ℕ) (first : String) (names : List String)
      (limit : ℤ) (limits : GoMap String ℤ) (schema : Schema) (c : String)
      → get_schema first ≡ value schema
      → build_connection_limit_map get_schema table qual_map unhandled (first ∷ names) limit
        ≡ ok (value limits)
      → lookup c (new_execute_request cache_ttl cache_enabled limit limits).execute_connection_data
        ≡ (if contains (first ∷ names) c
            then some (record {
              limit =
                  request_limit schema.mode
                    (should_pushdown_limit table qual_map unhandled schema)
                    limit;
              cache_ttl = cache_ttl c;
              cache_enabled = cache_enabled c;
            })
            else none)
  unfolding build_connection_limit_map new_execute_request request_connection_data limits_of_result
  execute_request_limits get_schema table qual_map unhandled first names limit limits schema c v h =
      ap (λ m. lookup c (request_connection_data cache_ttl cache_enabled m))
        (sym (
          value_injective (
            sym (ap (limits_of_result table qual_map unhandled (first ∷ names) limit) v)
            ∙ ok_injective h)))
      ∙ request-limits_for_schema table qual_map unhandled (first ∷ names) limit schema c
