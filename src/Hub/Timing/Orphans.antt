-- ===== src/Hub/Timing/Orphans.antt =====
-- hub/hub_base.go and hub/query_timing_metadata.go: reading the scan metadata table forgets which
-- query the stored summary belongs to, and from the next query on the summary table is lost.
use steampipe_postgres_fdw.Prelude.{
  ℕ, true, false, ◌||◌, some, List, [], ◌∷◌, ◌==◌, ◌≡◌, ◌≢◌, ◌≤◌, refl, arith, Bool-cases, inl, inr,
  In, ==_refl, ltb, lt→ltb, length, ok, fail, String, string_eq,
}
use steampipe_postgres_fdw.Prelude.Int.{ℤ, int_eq}
use steampipe_postgres_fdw.Prelude.GoMap.{
  GoMap, keys, length-ge-two, In-insert_self, In-insert, In-erase,
}
use steampipe_postgres_fdw.Hub.Timing.Defs.{
  Environment, QueryTimingMetadata, PluginScan, TimedHub, too_many, scan_metadata_table,
  add_scan_metadata_of, execute_command_scan, clear_scan_metadata,
}
use steampipe_postgres_fdw.Hub.Timing.Stale.{erase_stale}
use steampipe_postgres_fdw.Hub.Timing.Tables.{other_name}
use steampipe_postgres_fdw.Hub.Timing.OneQuery.{
  after, timing-record_scan, only_scans, after-summaries,
}

module _ {V : Type 0} where
  In-erase_stale :
      (current : ℤ) (ts : List ℤ) (j : ℤ) (m : GoMap ℤ V)
      → ¬ In j ts
      → In j (keys m)
      → In j (keys (erase_stale current ts m))
  In-erase_stale current [] j m out h = h
  In-erase_stale current (t ∷ ts) j m out h =
      In-erase_stale current ts j _ (λ g. out (inr g))
        (elim (Bool-cases (t == current)) [
          | inl y ↦ rw y h
          | inr n ↦ rw n (In-erase t j m (λ p. out (inl p)) h)
        ])

module _ (env : Environment) where
  open env use {foreign_table_scan_metadata_summary, foreign_table_scan_metadata}

  -- A summary of query `t0` is stored and no scan of it is, beside the summary of another query.
  pub record IsStuck (t0 : ℤ) (m : QueryTimingMetadata env) : Type 0 where
    pub orphan : In t0 (keys m.query_row_summary)
    pub no_scan : ¬ In t0 (keys m.scan_metadata)
    pub newer : (t : ℤ) × (t0 ≢ t) × In t (keys m.query_row_summary)

  module _ (t0 : ℤ) (scan : PluginScan) (m : QueryTimingMetadata env) (counter : List ℤ) where
    after-IsStuck :
        t0 ≢ scan.query_timestamp
        → In t0 (keys m.query_row_summary)
        → ¬ In t0 (keys m.scan_metadata)
        → IsStuck t0 (after env scan m counter)
    after-IsStuck ne h out = record {
      orphan = rw (after-summaries env scan m counter) (
          In-insert scan.query_timestamp t0 _ _ (
            In-erase_stale scan.query_timestamp (keys m.scan_metadata) t0 m.query_row_summary out
              h));
      no_scan = λ g. ne (only_scans env scan m counter t0 g);
      newer = (
        scan.query_timestamp,
        ne,
        rw (after-summaries env scan m counter) (In-insert_self scan.query_timestamp _ _),
      );
    }

  abbrev pub Timed : (QueryTimingMetadata env → Type 0) → TimedHub env → Type 0
  Timed P h = (m : QueryTimingMetadata env) × (h.query_timing ≡ some m) × P m

  -- What a hub goes through after query `t0`: scans of later queries are recorded, and command
  -- tables are read.
  pub data Later (t0 : ℤ) (h : TimedHub env) : TimedHub env → Type 0 where
    here : Later t0 h h
    scanned :
        (scan : PluginScan) {g : TimedHub env}
        → t0 ≢ scan.query_timestamp
        → Later t0 h g
        → Later t0 h (add_scan_metadata_of env (some scan) g)
    read :
        (table : String) {g : TimedHub env}
        → Later t0 h g
        → Later t0 h (execute_command_scan env table g).1

  scan-IsStuck :
      (t0 : ℤ) (scan : PluginScan) (h : TimedHub env)
      → t0 ≢ scan.query_timestamp
      → Timed (λ m. In t0 (keys m.query_row_summary) × (¬ In t0 (keys m.scan_metadata))) h
      → Timed (IsStuck t0) (add_scan_metadata_of env (some scan) h)
  unfolding add_scan_metadata_of
  scan-IsStuck t0 scan h ne (m, e, (i, o)) = (
    after env scan m h.hydrate_calls_counter,
    rw e (timing-record_scan env scan m h.hydrate_calls_counter),
    after-IsStuck t0 scan m h.hydrate_calls_counter ne i o,
  )

  count :
      (t0 : ℤ) (m : QueryTimingMetadata env)
      → IsStuck t0 m
      → ltb 1 (length m.query_row_summary) ≡ true
  count t0 m s =
      let (t, ne, i) = s.newer in lt→ltb 1 _ (length-ge-two m.query_row_summary t0 t s.orphan i ne)

  cleared-IsStuck :
      (t0 : ℤ) (m : QueryTimingMetadata env) → IsStuck t0 m → IsStuck t0 (clear_scan_metadata env m)
  unfolding clear_scan_metadata
  cleared-IsStuck t0 m s = record { orphan = s.orphan; no_scan = λ g. elim g [ ]; newer = s.newer }

  table-IsStuck :
      (t0 : ℤ) (table : String) (h : TimedHub env) (m : QueryTimingMetadata env)
      → h.query_timing ≡ some m
      → IsStuck t0 m
      → Timed (IsStuck t0) (scan_metadata_table env table h (some m)).1
  unfolding scan_metadata_table
  table-IsStuck t0 table h m e s = elim (Bool-cases (ltb 1 (length m.scan_metadata))) [
    | inl y ↦ rw y (m, e, s)
    | inr n ↦ rw n (clear_scan_metadata env m, refl, cleared-IsStuck t0 m s)
  ]

  read-IsStuck :
      (t0 : ℤ) (table : String) (h : TimedHub env)
      → Timed (IsStuck t0) h
      → Timed (IsStuck t0) (execute_command_scan env table h).1
  unfolding execute_command_scan
  read-IsStuck t0 table h (m, e, s) =
      elim (Bool-cases (table == foreign_table_scan_metadata_summary)) [
        | inl y ↦ rw (y, e, count t0 m s) (m, refl, s)
        | inr n ↦
            elim (Bool-cases (
              table == foreign_table_scan_metadata
              || table == env.legacy_command_table_scan_metadata)) [
                | inl y ↦
                    rw (n, y, e)
                      (table-IsStuck t0 table (record h { query_timing = some m }) m refl s)
                | inr k ↦ rw (n, k) (m, e, s)
              ]
      ]

  Later-IsStuck :
      (t0 : ℤ) (h g : TimedHub env) → Timed (IsStuck t0) h → Later t0 h g → Timed (IsStuck t0) g
  Later-IsStuck t0 h g s here = s
  Later-IsStuck t0 h g s (scanned scan {g = f} ne l) =
      let (m, e, k) = Later-IsStuck t0 h f s l in
      scan-IsStuck t0 scan f ne (m, e, (k.orphan, k.no_scan))
  Later-IsStuck t0 h g s (read table {g = f} l) = read-IsStuck t0 table f (Later-IsStuck t0 h f s l)

  stuck_fails :
      (t0 : ℤ) (h : TimedHub env)
      → Timed (IsStuck t0) h
      → (n : ℕ) × ((execute_command_scan env foreign_table_scan_metadata_summary h).0
          ≡ ok (fail (too_many foreign_table_scan_metadata_summary n)))
  unfolding execute_command_scan
  stuck_fails t0 h (m, e, s) = (
    length m.query_row_summary,
    rw (==_refl foreign_table_scan_metadata_summary, e, count t0 m s) refl,
  )

  metadata_read :
      (t0 : ℤ) (h : TimedHub env) (m : QueryTimingMetadata env)
      → h.query_timing ≡ some m
      → In t0 (keys m.query_row_summary)
      → length m.scan_metadata ≤ 1
      → Timed
          (λ x. In t0 (keys x.query_row_summary) × (¬ In t0 (keys x.scan_metadata)))
          (execute_command_scan env foreign_table_scan_metadata h).1
  unfolding execute_command_scan
  metadata_read t0 h m e i few =
      rw (other_name env, ==_refl foreign_table_scan_metadata, e, not_many)
        (clear_scan_metadata env m, refl, (i, λ g. elim g [ ]))
    where
      not_many : ltb 1 (length m.scan_metadata) ≡ false
      not_many = ground arith

  -- If the scan metadata table is read while the summary of query `t0` is stored, and a scan of
  -- another query is recorded next, the summary table fails from then on: after any further scans
  -- of queries other than `t0` and any reads of command tables, reading it is the error that there
  -- should be one summary only.
  pub summary_lost :
      (t0 : ℤ) (scan : PluginScan) (h : TimedHub env) (m : QueryTimingMetadata env)
      → h.query_timing ≡ some m
      → In t0 (keys m.query_row_summary)
      → length m.scan_metadata ≤ 1
      → t0 ≢ scan.query_timestamp
      → (g : TimedHub env)
      → Later t0
          (add_scan_metadata_of env
            (some scan)
            (execute_command_scan env foreign_table_scan_metadata h).1)
          g
      → (n : ℕ) × ((execute_command_scan env foreign_table_scan_metadata_summary g).0
          ≡ ok (fail (too_many foreign_table_scan_metadata_summary n)))
  summary_lost t0 scan h m e i few ne g l =
      stuck_fails t0 g
        (Later-IsStuck t0 _ g (scan-IsStuck t0 scan _ ne (metadata_read t0 h m e i few)) l)
