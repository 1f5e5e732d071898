-- ===== src/Fdw/Scans/Limits.antt =====
-- When the limit of a query reaches the plugin: from the callback that begins a scan to the execute
-- request that is made from the limit map.
use steampipe_postgres_fdw.Prelude.{
  if◌then◌else◌, Bool-cases, ◌==◌, nat_eq, string_eq, All, Go, ok, panic, ◌>>=◌, ok_injective,
  Result, value, fail, ℕ, String, ◌≡◌, refl, sym, ◌∙◌, inl, inr, Bool, true, false, ◌||◌, Option,
  none, some, List, [], ◌∷◌, arith,
}
use steampipe_postgres_fdw.Prelude.Int.{ℤ, int_eq}
use steampipe_postgres_fdw.Prelude.GoMap.{GoMap, lookup}
use steampipe_postgres_fdw.Proto.{Schema, Qual}
use steampipe_postgres_fdw.Hub.Remote.{
  RemoteEnvironment, RemoteError, GlobalConfig, Connection, Got, plugin_scan, command_scan,
  ScanRequest, get_iterator, get_connection_plugin, start_scan_for_connection, scan_of_plugin,
  scan_of_names, scan_with_limits, scanned_names,
}
use steampipe_postgres_fdw.Hub.Quals.{build_qual_map}
use steampipe_postgres_fdw.Hub.Quals.Pushdown.{HandlesAll}
use steampipe_postgres_fdw.Hub.Factory.Defs.{Factory, ConnectionPlugin}
use steampipe_postgres_fdw.Hub.Limits.Defs.{
  build_connection_limit_map, limits_of_result, ExecuteConnectionData, new_execute_request,
  no_limit,
}
use steampipe_postgres_fdw.Hub.Limits.Requests.{is_checked}
use steampipe_postgres_fdw.Hub.Limits.Handled.{sent_limit_handled, sent_limit_real}
use steampipe_postgres_fdw.Fdw.Sorting.Defs.{SortColumn, get_sort_columns}
use steampipe_postgres_fdw.Fdw.Restrictions.Nodes.{Environment, ConversionInfos, Node}
use steampipe_postgres_fdw.Fdw.Restrictions.Defs.{restrictions_to_quals, single_restriction_to_qual}
use steampipe_postgres_fdw.Fdw.Restrictions.Counts.{none_unhandled}
use steampipe_postgres_fdw.Fdw.Scans.Defs.{ExecState, scan_limit, qual_pointers, begin_iterator}

-- The schema by which the hub decides about the limit of a scan: that of the first connection that
-- the scan is for, from the plugin of the connection.
abbrev pub IsScanSchema : RemoteEnvironment → GlobalConfig → String → Factory → Schema → Type 0
IsScanSchema env config connection f schema =
    (p : ConnectionPlugin) × (conn : Connection) × (first : String) × (names : List String)
    × ((get_connection_plugin env config connection f).0 ≡ value p)
    × (lookup connection config.connections ≡ some conn)
    × (scanned_names env config connection conn ≡ value (first ∷ names))
    × (env.schema_of p first ≡ value schema)

-- The limit map of a scan is the one that the hub builds, over at least one connection.
abbrev BuiltOver :
    RemoteEnvironment
    → ConnectionPlugin
    → Result RemoteError (List String)
    → ScanRequest
    → ℕ
    → ScanRequest
    → Type 0
BuiltOver env p scanned r unhandled made =
    (first : String) × (names : List String) × (scanned ≡ value (first ∷ names))
    × (build_connection_limit_map (env.schema_of p) r.table r.qual_map unhandled (first ∷ names)
          r.limit
        ≡ ok (value made.connection_limit_map))
    × (made.limit ≡ r.limit)

module _ (env : RemoteEnvironment) (config : GlobalConfig) where
  with_limits_parts :
      (r made : ScanRequest) (g : Go (Result String (GoMap String ℤ)))
      → scan_with_limits env config r g ≡ ok (plugin_scan made)
      → (g ≡ ok (value made.connection_limit_map)) × (made.limit ≡ r.limit)
  unfolding scan_with_limits
  with_limits_parts r made panic e = cc
  with_limits_parts r made (ok (fail x)) e = cc
  with_limits_parts r made (ok (value limits)) e = (ground arith, ground arith)

  names_parts :
      (r made : ScanRequest) (unhandled : ℕ) (p : ConnectionPlugin)
      (names : Result RemoteError (List String))
      → scan_of_names env config r unhandled p names ≡ ok (plugin_scan made)
      → BuiltOver env p names r unhandled made
  unfolding scan_of_names build_connection_limit_map
  names_parts r made unhandled p (fail x) e = cc
  names_parts r made unhandled p (value []) e = cc ((with_limits_parts r made panic e).0)
  names_parts r made unhandled p (value (first ∷ names)) e =
      let k = with_limits_parts r made _ e in (first, names, refl, k.0, k.1)

  plugin_parts :
      (r made : ScanRequest) (unhandled : ℕ) (p : Result RemoteError ConnectionPlugin)
      (c : Option Connection)
      → scan_of_plugin env config r unhandled p c ≡ ok (plugin_scan made)
      → (q : ConnectionPlugin) × (conn : Connection) × (p ≡ value q)
        × (c ≡ some conn)
        × BuiltOver env q (scanned_names env config r.connection_name conn) r unhandled made
  unfolding scan_of_plugin
  plugin_parts r made unhandled (fail x) c e = cc
  plugin_parts r made unhandled (value p) none e = cc
  plugin_parts r made unhandled (value p) (some c) e = (
    p,
    c,
    refl,
    refl,
    names_parts r made unhandled p (scanned_names env config r.connection_name c) e,
  )

-- The schema behind a limit map.
schema_parts :
    (table : String) (m : GoMap String (List Qual)) (unhandled : ℕ) (names : List String)
    (limit : ℤ) (limits : GoMap String ℤ) (o : Result String Schema)
    → limits_of_result table m unhandled names limit o ≡ value limits
    → (schema : Schema) × (o ≡ value schema)
unfolding limits_of_result
schema_parts table m unhandled names limit limits (fail x) e = cc
schema_parts table m unhandled names limit limits (value schema) e = (schema, refl)

built_schema :
    (get_schema : String → Result String Schema) (table : String) (m : GoMap String (List Qual))
    (unhandled : ℕ) (first : String) (names : List String) (limit : ℤ) (limits : GoMap String ℤ)
    → build_connection_limit_map get_schema table m unhandled (first ∷ names) limit
      ≡ ok (value limits)
    → (schema : Schema) × (get_schema first ≡ value schema)
unfolding build_connection_limit_map
built_schema get_schema table m unhandled first names limit limits e =
    schema_parts table m unhandled (first ∷ names) limit limits (get_schema first) (ok_injective e)

not_panicking :
    (b : Bool) (g : Go Got) (r : ScanRequest)
    → (if b then ok none else g >>= (λ x. ok (some x))) ≡ ok (some (plugin_scan r))
    → (b ≡ false) × (g ≡ ok (plugin_scan r))
not_panicking true g r e = cc
not_panicking false panic r e = cc
not_panicking false (ok x) r e = (refl, ground arith)

plugin_branch :
    (b : Bool) (connection table : String) (f : Factory) (y : Go Got × Factory) (r : ScanRequest)
    → (if b then (ok (command_scan connection table), f) else y).0 ≡ ok (plugin_scan r)
    → y.0 ≡ ok (plugin_scan r)
plugin_branch true connection table f y r e = cc
plugin_branch false connection table f y r e = e

abbrev asked :
    (connection table : String)
    → List (Option Qual)
    → List String
    → ℤ
    → List SortColumn
    → ℤ
    → ScanRequest
asked connection table quals columns limit sort_order timestamp = record {
  connection_name = connection;
  table = table;
  connection_limit_map = [];
  qual_map = build_qual_map quals;
  columns = columns;
  limit = limit;
  sort_order = sort_order;
  query_timestamp = timestamp;
}

-- A plugin scan that GetIterator returns has a limit map that the hub has built.
iterator_parts :
    (env : RemoteEnvironment) (config : GlobalConfig) (connection table : String)
    (quals : List (Option Qual)) (unhandled : ℕ) (columns : List String) (limit : ℤ)
    (sort_order : List SortColumn) (timestamp : ℤ) (f : Factory) (made : ScanRequest)
    → (get_iterator env config connection table quals unhandled columns limit sort_order timestamp
        f).0
      ≡ ok (plugin_scan made)
    → (p : ConnectionPlugin) × (conn : Connection) × ((get_connection_plugin env config connection
          f).0
        ≡ value p)
      × (lookup connection config.connections ≡ some conn)
      × BuiltOver env p
          (scanned_names env config connection conn)
          (asked connection table quals columns limit sort_order timestamp)
          unhandled
          made
unfolding get_iterator start_scan_for_connection
iterator_parts env config connection table quals unhandled columns limit sort_order timestamp f made
      e =
    let request = asked connection table quals columns limit sort_order timestamp in
    plugin_parts env config request made unhandled (get_connection_plugin env config connection f).0
      (lookup connection config.connections)
      (plugin_branch (connection == env.internal_schema || connection == env.legacy_command_schema)
        connection table f (start_scan_for_connection env config request unhandled f) made e)

explained :
    (b : Bool) (f : Factory) (got : Go Got × Factory) (r : ScanRequest)
    → (let res : Go (Option Got) × Factory =
          if b then (ok none, f) else (got.0 >>= (λ g. ok (some g)), got.1) in
        res.0)
      ≡ ok (some (plugin_scan r))
    → got.0 ≡ ok (plugin_scan r)
explained true f got r e = cc
explained false f (panic, g) r e = cc
explained false f (ok x, g) r e = ground arith

unlimited :
    (s : ExecState) (sent : ℤ)
    → sent ≡ scan_limit s
    → (scan_limit s == no_limit) ≡ false
    → (sent ≡ s.limit) × (s.can_pushdown_all_sort_fields ≡ true)
unfolding scan_limit
unlimited s sent e f = elim (Bool-cases s.can_pushdown_all_sort_fields) [
  | inl t ↦ (ground arith, t)
  | inr n ↦ absurd (ground arith)
]

module _ (pg : Environment) (infos : ConversionInfos) (base : ℕ) where
  -- The request of a scan of the remote hub gives a connection a limit only if it is the limit of
  -- the query, all sort fields are pushed down, every restriction has a qual, and all quals are
  -- handled by the table of the schema of the first connection that is scanned: where the mode of
  -- every schema is static or dynamic. The query context of the request then has this limit too.
  pub limit_sent_only_if_safe :
      (env : RemoteEnvironment) (config : GlobalConfig) (explain : Bool) (connection table : String)
      (restrictions : List Node) (s : ExecState) (timestamp : ℤ) (f : Factory) (r : ScanRequest)
      (cache_ttl : String → ℤ) (cache_enabled : String → Bool) (c : String)
      (d : ExecuteConnectionData) (sent : ℤ)
      → ((p : ConnectionPlugin) (name : String) (schema : Schema)
          → env.schema_of p name ≡ value schema
          → is_checked schema.mode ≡ true)
      → (begin_iterator pg infos base env config explain connection table restrictions s timestamp
          f).0
        ≡ ok (some (plugin_scan r))
      → lookup c
          (new_execute_request cache_ttl cache_enabled r.limit
            r.connection_limit_map).execute_connection_data
        ≡ some d
      → d.limit ≡ some sent
      → (sent ≡ s.limit)
        × (s.can_pushdown_all_sort_fields ≡ true)
        × All (λ n. (q : Qual) × (single_restriction_to_qual pg infos base n ≡ some q)) restrictions
        × ((schema : Schema) × IsScanSchema env config connection f schema
            × HandlesAll
                (lookup table schema.tables)
                (qual_pointers (restrictions_to_quals pg infos base restrictions).0))
        × ((new_execute_request cache_ttl cache_enabled r.limit
              r.connection_limit_map).query_context_limit
            ≡ s.limit)
  unfolding begin_iterator new_execute_request
  limit_sent_only_if_safe env config explain connection table restrictions s timestamp f r cache_ttl
        cache_enabled c d sent checked e l h =
      let quals = restrictions_to_quals pg infos base restrictions in
      let pointers = qual_pointers quals.0 in
      let got =
        get_iterator env config connection table pointers quals.1 s.columns (scan_limit s)
          (get_sort_columns s.pathkeys) timestamp f in
      let (p, conn, got_p, got_conn, (first, names, scanned, built, same_limit)) =
        iterator_parts env config connection table pointers quals.1 s.columns (scan_limit s)
          (get_sort_columns s.pathkeys) timestamp f r (explained explain f got r e) in
      let (schema, got_schema) =
        built_schema (env.schema_of p) table (build_qual_map pointers) quals.1 first names
          (scan_limit s) r.connection_limit_map built in
      let handled =
        sent_limit_handled cache_ttl cache_enabled (env.schema_of p) table pointers quals.1 first
          names (scan_limit s) r.connection_limit_map schema c d sent got_schema
          (checked p first schema got_schema) built l h in
      let real =
        sent_limit_real cache_ttl cache_enabled (env.schema_of p) table pointers quals.1 first names
          (scan_limit s) r.connection_limit_map schema c d sent got_schema built l h in
      let limits = unlimited s sent handled.0 real in
      (
        limits.0,
        limits.1,
        none_unhandled pg infos base restrictions handled.1,
        (schema, (p, conn, first, names, got_p, got_conn, scanned, got_schema), handled.2),
        same_limit ∙ sym handled.0 ∙ limits.0,
      )

  -- The query context of the request has the limit that goFdwBeginForeignScan passes on, whether or
  -- not a connection gets it.
  pub query_context_limit_unguarded :
      (env : RemoteEnvironment) (config : GlobalConfig) (explain : Bool) (connection table : String)
      (restrictions : List Node) (s : ExecState) (timestamp : ℤ) (f : Factory) (r : ScanRequest)
      (cache_ttl : String → ℤ) (cache_enabled : String → Bool)
      → (begin_iterator pg infos base env config explain connection table restrictions s timestamp
          f).0
        ≡ ok (some (plugin_scan r))
      → (new_execute_request cache_ttl cache_enabled r.limit
          r.connection_limit_map).query_context_limit
        ≡ scan_limit s
  unfolding begin_iterator new_execute_request
  query_context_limit_unguarded env config explain connection table restrictions s timestamp f r
        cache_ttl cache_enabled e =
      let quals = restrictions_to_quals pg infos base restrictions in
      let pointers = qual_pointers quals.0 in
      let got =
        get_iterator env config connection table pointers quals.1 s.columns (scan_limit s)
          (get_sort_columns s.pathkeys) timestamp f in
      let (p, conn, got_p, got_conn, (first, names, scanned, built, same_limit)) =
        iterator_parts env config connection table pointers quals.1 s.columns (scan_limit s)
          (get_sort_columns s.pathkeys) timestamp f r (explained explain f got r e) in
      same_limit
