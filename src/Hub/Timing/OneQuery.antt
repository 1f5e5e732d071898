-- ===== src/Hub/Timing/OneQuery.antt =====
-- `AddScanMetadata` of hub/hub_base.go: what the hub holds after it is of the current query alone,
-- and the summary table reads it.
use mathlib.Core.List.{foldl}
use steampipe_postgres_fdw.Prelude.{
  some, List, [], ◌∷◌, ◌++◌, ◌≡◌, refl, sym, ◌∙◌, subst, inl, inr, In, ==_refl, string_eq,
}
use steampipe_postgres_fdw.Prelude.Int.{ℤ, int_eq}
use steampipe_postgres_fdw.Prelude.GoMap.{
  lookup, insert, keys, IsMap, IsMap-insert, In-keys-insert, lookup-insert, singleton,
}
use steampipe_postgres_fdw.Hub.Timing.Defs.{
  ScanMetadataRow, Environment, QueryTimingMetadata, PluginScan, summary_or_new, add_rows,
  remove_stale_scan_metadata, record_scan,
}
use steampipe_postgres_fdw.Hub.Timing.Slowest.{KeepsSlowest}
use steampipe_postgres_fdw.Hub.Timing.Stale.{
  erase_stale, remove_keys-erase_stale, IsMap-erase_stale, In-keys-erase_stale, lookup-erase_stale,
}
use steampipe_postgres_fdw.Hub.Timing.Rows.{
  list_of, summary-add_rows, summaries-add_rows, In-keys-add_rows, IsMap-add_rows,
  add_rows-KeepsSlowest,
}

module _ (env : Environment) where
  open env use {Summary, update, summary_row, foreign_table_scan_metadata_summary}

  -- No summary is left of a query whose scan metadata is gone.
  pub record IsTidy (m : QueryTimingMetadata env) : Type 0 where
    pub scans_map : IsMap m.scan_metadata
    pub summaries_map : IsMap m.query_row_summary
    pub no_orphan : (t : ℤ) → In t (keys m.query_row_summary) → In t (keys m.scan_metadata)

  module _ (scan : PluginScan) (m : QueryTimingMetadata env) (counter : List ℤ) where
    abbrev t : ℤ
    t = scan.query_timestamp

    abbrev pub summary_before : Summary
    summary_before = summary_or_new env (lookup t m.query_row_summary)

    abbrev fresh : QueryTimingMetadata env
    fresh = remove_stale_scan_metadata env t m

    -- The metadata that `AddScanMetadata` leaves.
    abbrev pub after : QueryTimingMetadata env
    after =
        let (summary, m', c) = add_rows env t scan.scan_rows (summary_before, fresh, counter) in
        record m' { query_row_summary = insert t summary m'.query_row_summary }

    pub timing-record_scan : (record_scan env scan m counter).query_timing ≡ some after
    unfolding record_scan
    timing-record_scan = refl

    fresh-eq : fresh ≡ record {
      scan_metadata = erase_stale t (keys m.scan_metadata) m.scan_metadata;
      query_row_summary = erase_stale t (keys m.scan_metadata) m.query_row_summary;
    }
    unfolding remove_stale_scan_metadata
    fresh-eq = remove_keys-erase_stale env t (keys m.scan_metadata) m

    pub after-summaries :
        after.query_row_summary
        ≡ insert t
            (foldl update summary_before scan.scan_rows)
            (erase_stale t (keys m.scan_metadata) m.query_row_summary)
    after-summaries =
        rw
          (
            summary-add_rows env t scan.scan_rows summary_before fresh counter,
            summaries-add_rows env t scan.scan_rows summary_before fresh counter,
            fresh-eq,
          )
          refl

    pub only_scans : (j : ℤ) → In j (keys after.scan_metadata) → j ≡ t
    only_scans j h = elim (In-keys-add_rows env t scan.scan_rows summary_before fresh counter j h) [
      | inl e ↦ sym e
      | inr g ↦
          let (g', f) =
            In-keys-erase_stale t (keys m.scan_metadata) j m.scan_metadata
              (subst (λ x. In j (keys x.scan_metadata)) fresh-eq g) in
          f g'
    ]

    pub scans-IsMap : IsMap m.scan_metadata → IsMap after.scan_metadata
    scans-IsMap d =
        IsMap-add_rows env t scan.scan_rows summary_before fresh counter
          (rw fresh-eq (IsMap-erase_stale t (keys m.scan_metadata) m.scan_metadata d))

    pub after-summary :
        IsTidy m → after.query_row_summary ≡ (t, foldl update summary_before scan.scan_rows) ∷ []
    after-summary tidy =
        let left = erase_stale t (keys m.scan_metadata) m.query_row_summary in
        let total = foldl update summary_before scan.scan_rows in
        after-summaries
        ∙ singleton t total (insert t total left)
            (IsMap-insert t total left
              (IsMap-erase_stale t (keys m.scan_metadata) m.query_row_summary tidy.summaries_map))
            (λ j h. elim (In-keys-insert t j total left h) [
              | inl e ↦ sym e
              | inr g ↦
                  let (g', f) =
                    In-keys-erase_stale t (keys m.scan_metadata) j m.query_row_summary g in
                  f (tidy.no_orphan j g')
            ])
            (rw (lookup-insert, ==_refl t) refl)

    pub slowest_after :
        (all : List ScanMetadataRow)
        → KeepsSlowest (list_of env t m) all
        → KeepsSlowest (list_of env t after) (all ++ scan.scan_rows)
    slowest_after all k =
        add_rows-KeepsSlowest env t scan.scan_rows summary_before fresh counter all (
          rw (fresh-eq, lookup-erase_stale t (keys m.scan_metadata) t m.scan_metadata (λ _. refl))
            k)
