-- ===== src/Hub/Limits/Handled.antt =====
-- A limit in an execute request is one that the plugin may apply.
use steampipe_postgres_fdw.Prelude.{
  if◌then◌else◌, ◌==◌, nat_eq, string_eq, contains, ok, Result, value, ℕ, String, ◌≡◌, sym, ap, ◌∙◌,
  Bool, true, false, Option, none, some, List, ◌∷◌, arith,
}
use steampipe_postgres_fdw.Prelude.Int.{ℤ, int_eq}
use steampipe_postgres_fdw.Prelude.GoMap.{GoMap, lookup}
use steampipe_postgres_fdw.Proto.{Schema, SchemaMode, Qual}
use steampipe_postgres_fdw.Hub.Quals.{should_pushdown_limit, build_qual_map}
use steampipe_postgres_fdw.Hub.Quals.Pushdown.{should_pushdown_limit_iff, HandlesAll}
use steampipe_postgres_fdw.Hub.Limits.Defs.{
  build_connection_limit_map, ExecuteConnectionData, new_execute_request, no_limit,
}
use steampipe_postgres_fdw.Hub.Limits.Requests.{
  is_checked, request_limit, the_data, execute_request_limits,
}

chosen-pushed :
    (mode : SchemaMode) (pushed : Bool) (limit sent : ℤ)
    → is_checked mode ≡ true
    → request_limit mode pushed limit ≡ some sent
    → (sent ≡ limit) × (pushed ≡ true)
unfolding request_limit
chosen-pushed mode pushed limit sent c f = ground arith

chosen-limited :
    (mode : SchemaMode) (pushed : Bool) (limit sent : ℤ)
    → request_limit mode pushed limit ≡ some sent
    → (limit == no_limit) ≡ false
unfolding request_limit
chosen-limited mode pushed limit sent f = ground arith

some_injective : {x y : ExecuteConnectionData} → some x ≡ some y → x ≡ y
some_injective h = cc

limit-chosen :
    (named : Bool) (mode : SchemaMode) (pushed : Bool) (limit sent : ℤ) (d : ExecuteConnectionData)
    (t : ℤ) (e : Bool)
    → is_checked mode ≡ true
    → (if named then some (the_data (request_limit mode pushed limit) t e) else none) ≡ some d
    → d.limit ≡ some sent
    → (sent ≡ limit) × (pushed ≡ true)
unfolding request_limit
limit-chosen false mode pushed limit sent d t e c h f = cc
limit-chosen true mode pushed limit sent d t e c h f =
    chosen-pushed mode pushed limit sent c (ap (λ x. x.limit) (some_injective h) ∙ f)

limited :
    (named : Bool) (mode : SchemaMode) (pushed : Bool) (limit sent : ℤ) (d : ExecuteConnectionData)
    (t : ℤ) (e : Bool)
    → (if named then some (the_data (request_limit mode pushed limit) t e) else none) ≡ some d
    → d.limit ≡ some sent
    → (limit == no_limit) ≡ false
limited false mode pushed limit sent d t e h f = cc
limited true mode pushed limit sent d t e h f =
    chosen-limited mode pushed limit sent (ap (λ x. x.limit) (some_injective h) ∙ f)

module _ (cache_ttl : String → ℤ) (cache_enabled : String → Bool) where
  -- No limit cuts off rows that Postgres still filters: if the schema is static or dynamic and the
  -- request of a scan gives a connection a limit, then it is the limit of the query, every
  -- restriction of the query became a qual, and the plugin handles every qual.
  pub sent_limit_handled :
      (get_schema : String → Result String Schema) (table : String) (quals : List (Option Qual))
      (unhandled : ℕ) (first : String) (names : List String) (limit : ℤ) (limits : GoMap String ℤ)
      (schema : Schema) (c : String) (d : ExecuteConnectionData) (sent : ℤ)
      → get_schema first ≡ value schema
      → is_checked schema.mode ≡ true
      → build_connection_limit_map get_schema table
          (build_qual_map quals)
          unhandled
          (first ∷ names)
          limit
        ≡ ok (value limits)
      → lookup c (new_execute_request cache_ttl cache_enabled limit limits).execute_connection_data
        ≡ some d
      → d.limit ≡ some sent
      → (sent ≡ limit) × (unhandled ≡ 0) × HandlesAll (lookup table schema.tables) quals
  sent_limit_handled get_schema table quals unhandled first names limit limits schema c d sent v
        checked h e f =
      let pushed = should_pushdown_limit table (build_qual_map quals) unhandled schema in
      let got =
        limit-chosen (contains (first ∷ names) c) schema.mode pushed limit sent d (cache_ttl c)
          (cache_enabled c) checked
          (sym (
              execute_request_limits cache_ttl cache_enabled get_schema table (build_qual_map quals)
                unhandled first names limit limits schema c v h)
            ∙ e)
          f in
      let met = (should_pushdown_limit_iff table quals unhandled schema).0 got.1 in
      (got.0, met.0, met.1)

  -- The request of a scan gives a connection a limit only if the query has one.
  pub sent_limit_real :
      (get_schema : String → Result String Schema) (table : String) (quals : List (Option Qual))
      (unhandled : ℕ) (first : String) (names : List String) (limit : ℤ) (limits : GoMap String ℤ)
      (schema : Schema) (c : String) (d : ExecuteConnectionData) (sent : ℤ)
      → get_schema first ≡ value schema
      → build_connection_limit_map get_schema table
          (build_qual_map quals)
          unhandled
          (first ∷ names)
          limit
        ≡ ok (value limits)
      → lookup c (new_execute_request cache_ttl cache_enabled limit limits).execute_connection_data
        ≡ some d
      → d.limit ≡ some sent
      → (limit == no_limit) ≡ false
  sent_limit_real get_schema table quals unhandled first names limit limits schema c d sent v h e
        f =
      let pushed = should_pushdown_limit table (build_qual_map quals) unhandled schema in
      limited (contains (first ∷ names) c) schema.mode pushed limit sent d (cache_ttl c)
        (cache_enabled c)
        (sym (
            execute_request_limits cache_ttl cache_enabled get_schema table (build_qual_map quals)
              unhandled first names limit limits schema c v h)
          ∙ e)
        f
