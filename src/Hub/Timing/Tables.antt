-- ===== src/Hub/Timing/Tables.antt =====
-- hub/hub_base.go: what the command tables show after a scan was recorded.
use mathlib.Core.List.{foldl, append-nil}
use steampipe_postgres_fdw.Prelude.{
  false, some, List, [], ◌∷◌, ◌++◌, ◌==◌, ◌≡◌, refl, sym, ◌∙◌, ap, arith, map, Bool-cases, inl, inr,
  In, ==_refl, ==_iff, length, ltb, ok, value, string_eq,
}
use steampipe_postgres_fdw.Prelude.Int.{ℤ, int_eq}
use steampipe_postgres_fdw.Prelude.GoMap.{GoMap, lookup, keys, IsMap, length-le-one}
use steampipe_postgres_fdw.Hub.Timing.Defs.{
  ScanMetadataRow, Environment, QueryTimingMetadata, PluginScan, TimedHub, rows_or_nil,
  summary_or_new, metadata_rows, add_scan_metadata_of, execute_command_scan,
}
use steampipe_postgres_fdw.Hub.Timing.Slowest.{KeepsSlowest}
use steampipe_postgres_fdw.Hub.Timing.Rows.{list_of}
use steampipe_postgres_fdw.Hub.Timing.OneQuery.{
  IsTidy, after, timing-record_scan, only_scans, scans-IsMap, after-summary, slowest_after,
}

one_list :
    (env : Environment) (t : ℤ) (m : GoMap ℤ (List ScanMetadataRow))
    → IsMap m
    → ((j : ℤ) → In j (keys m) → j ≡ t)
    → metadata_rows env m ≡ map env.metadata_row (rows_or_nil env (lookup t m))
unfolding metadata_rows lookup
one_list env t [] d only = refl
one_list env t ((a, w) ∷ []) d only =
    rw ((==_iff a t).1 (only a (inl refl))) (append-nil (map env.metadata_row w))
one_list env t ((a, w) ∷ (b, x) ∷ m) d only =
    absurd (d.0 (inl (only b (inr (inl refl)) ∙ sym (only a (inl refl)))))

at_most_one :
    (m : GoMap ℤ (List ScanMetadataRow)) (t : ℤ)
    → IsMap m
    → ((j : ℤ) → In j (keys m) → j ≡ t)
    → ltb 1 (length m) ≡ false
at_most_one m t d only = ground (arith, length-le-one m t d only)

module _ (env : Environment) where
  open env use {foreign_table_scan_metadata_summary, foreign_table_scan_metadata}

  pub other_name : (foreign_table_scan_metadata == foreign_table_scan_metadata_summary) ≡ false
  other_name =
      elim (Bool-cases (foreign_table_scan_metadata == foreign_table_scan_metadata_summary)) [
        | inl y ↦ absurd (env.tables_differ ((==_iff _ foreign_table_scan_metadata_summary).0 y))
        | inr n ↦ n
      ]

module _ (env : Environment) (scan : PluginScan) (h : TimedHub env) where
  open env use {
    update, summary_row, metadata_row, foreign_table_scan_metadata_summary,
    foreign_table_scan_metadata,
  }

  abbrev recorded : TimedHub env
  recorded = add_scan_metadata_of env (some scan) h

  module _ (m : QueryTimingMetadata env) (timed : h.query_timing ≡ some m) where
    timing-recorded : recorded.query_timing ≡ some (after env scan m h.hydrate_calls_counter)
    unfolding add_scan_metadata_of
    timing-recorded = rw timed (timing-record_scan env scan m h.hydrate_calls_counter)

    -- Once a scan is recorded, if no earlier read left a summary without its scans, the summary
    -- table shows one row: the summary of the current query, updated with each row of the scan.
    pub read_summary :
        IsTidy env m
        → (execute_command_scan env foreign_table_scan_metadata_summary recorded).0
          ≡ ok (
              value (
                summary_row (
                  foldl update
                    (summary_or_new env (lookup scan.query_timestamp m.query_row_summary))
                    scan.scan_rows)
                ∷ []))
    unfolding execute_command_scan
    read_summary tidy =
        rw (==_refl foreign_table_scan_metadata_summary, timing-recorded)
          (rw (after-summary env scan m h.hydrate_calls_counter tidy) refl)

    -- Once a scan is recorded, the scan metadata table shows the rows that are kept for its query
    -- and no others: if the kept list held the slowest of `all`, it now holds the slowest 500 of
    -- `all` and the rows of the scan, slowest first, and nothing is dropped below 500 rows.
    pub read_scan_metadata :
        (all : List ScanMetadataRow)
        → IsMap m.scan_metadata
        → KeepsSlowest (list_of env scan.query_timestamp m) all
        → (rows : List ScanMetadataRow) × ((execute_command_scan env foreign_table_scan_metadata
              recorded).0
            ≡ ok (value (map metadata_row rows)))
          × KeepsSlowest rows (all ++ scan.scan_rows)
    unfolding execute_command_scan
    read_scan_metadata all d k =
        let t = scan.query_timestamp in
        let m' = after env scan m h.hydrate_calls_counter in
        let d' = scans-IsMap env scan m h.hydrate_calls_counter d in
        let only = only_scans env scan m h.hydrate_calls_counter in
        (
          list_of env t m',
          rw (other_name env, ==_refl foreign_table_scan_metadata, timing-recorded)
              (rw (at_most_one m'.scan_metadata t d' only)
                (ap (λ r. ok (value r)) (one_list env t m'.scan_metadata d' only))),
          slowest_after env scan m h.hydrate_calls_counter all k,
        )
