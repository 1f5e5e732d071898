-- ===== src/Hub/Timing/Defs.antt =====
-- The timing metadata, the definitions. A lock is taken and released within one operation, so an
-- operation is one step.
use steampipe_postgres_fdw.Prelude.{
  ◌≢◌, ℕ, String, Bool, true, not, ◌||◌, Option, none, some, List, [], ◌∷◌, ◌++◌, if◌then◌else◌,
  map, ltb, length, take, string_eq, ◌==◌, Go, ok, panic, Result, value, fail, All, nat_eq,
}
use mathlib.Core.List.{Permᴰ}
use steampipe_postgres_fdw.Prelude.Int.{ℤ, ltb_ℤ, ◌≤ℤ◌, int_eq}
use steampipe_postgres_fdw.Prelude.GoMap.{GoMap, lookup, insert, erase, keys}

-- queryresult.ScanMetadataRow of Steampipe, with the fields that this code reads.
pub record ScanMetadataRow : Type 0 where
  pub connection : String
  pub table : String
  pub hydrate_calls : ℤ
  pub duration_ms : ℤ

abbrev pub scan_metadata_buffer_size : ℕ
scan_metadata_buffer_size = 500

-- `a` takes at least as long as `b`: not (b.DurationMs > a.DurationMs).
abbrev pub NotFaster : ScanMetadataRow → ScanMetadataRow → Type 0
NotFaster a b = b.duration_ms ≤ℤ a.duration_ms

abbrev pub IsSorted : List ScanMetadataRow → Type 0
IsSorted [] = Unit
IsSorted (x ∷ xs) = All (NotFaster x) xs × IsSorted xs

-- Not `scanMetadata.DurationMs < metadataForQuery[len-1].DurationMs`. The code asks it of a full
-- list, which is not empty.
abbrev pub slower_than_last : ScanMetadataRow → List ScanMetadataRow → Bool
slower_than_last row [] = true
slower_than_last row (x ∷ []) = not (ltb_ℤ row.duration_ms x.duration_ms)
slower_than_last row (x ∷ y ∷ l) = slower_than_last row (y ∷ l)

-- What this code calls and does not implement: the summaries and result rows of Steampipe, the
-- names of the command tables, and `sort.Slice`, which promises no order among equal durations.
pub record Environment : Type 1 where
  pub Summary : Type 0
  pub new_summary : Summary
  pub update : Summary → ScanMetadataRow → Summary
  pub ResultRow : Type 0
  pub summary_row : Summary → ResultRow
  pub metadata_row : ScanMetadataRow → ResultRow
  pub foreign_table_scan_metadata_summary : String
  pub foreign_table_scan_metadata : String
  pub legacy_command_table_scan_metadata : String
  -- Go refuses a switch with two equal constant cases.
  pub tables_differ : foreign_table_scan_metadata ≢ foreign_table_scan_metadata_summary
  pub sort_slice : List ScanMetadataRow → List ScanMetadataRow
  pub sort_slice-perm : (l : List ScanMetadataRow) → Permᴰ (sort_slice l) l
  pub sort_slice-IsSorted : (l : List ScanMetadataRow) → IsSorted (sort_slice l)

-- What a finished or cancelled scan hands over, if it is the scan of a plugin.
pub record PluginScan : Type 0 where
  pub query_timestamp : ℤ
  pub scan_rows : List ScanMetadataRow

-- The errors of `executeCommandScan`.
pub data CommandScanError : Type 0 where
  too_many : (table : String) (count : ℕ) → CommandScanError
  no_such_table : (table : String) → CommandScanError

module _ (env : Environment) where
  open env use {
    Summary, new_summary, update, ResultRow, summary_row, metadata_row, sort_slice,
    foreign_table_scan_metadata_summary, foreign_table_scan_metadata,
    legacy_command_table_scan_metadata,
  }

  pub record QueryTimingMetadata : Type 0 where
    pub scan_metadata : GoMap ℤ (List ScanMetadataRow)
    pub query_row_summary : GoMap ℤ Summary

  abbrev pub new_query_timing_metadata : QueryTimingMetadata
  new_query_timing_metadata = record { scan_metadata = []; query_row_summary = [] }

  -- The new list for the query. The `sort.Slice` of the first branch sorts the stored slice itself.
  unfoldable pub add_row : List ScanMetadataRow → ScanMetadataRow → List ScanMetadataRow
  add_row rows row =
      if ltb (length rows) scan_metadata_buffer_size
      then sort_slice (rows ++ row ∷ [])
      else if not (slower_than_last row rows)
      then rows
      else take scan_metadata_buffer_size (sort_slice (rows ++ row ∷ []))

  abbrev pub rows_or_nil : Option (List ScanMetadataRow) → List ScanMetadataRow
  rows_or_nil none = []
  rows_or_nil (some rows) = rows

  -- addScanMetadata
  unfoldable pub add_scan_metadata : ℤ → ScanMetadataRow → QueryTimingMetadata → QueryTimingMetadata
  unfolding add_row
  add_scan_metadata query_timestamp row m = record m {
    scan_metadata =
        insert query_timestamp (add_row (rows_or_nil (lookup query_timestamp m.scan_metadata)) row)
          m.scan_metadata;
  }

  -- The range of `removeStaleScanMetadata` over the keys of the scan metadata.
  unfoldable pub remove_keys : ℤ → List ℤ → QueryTimingMetadata → QueryTimingMetadata
  remove_keys current [] m = m
  remove_keys current (t ∷ ts) m = remove_keys current ts (
      if not (t == current)
      then record {
        scan_metadata = erase t m.scan_metadata;
        query_row_summary = erase t m.query_row_summary;
      }
      else m)

  unfoldable pub remove_stale_scan_metadata : ℤ → QueryTimingMetadata → QueryTimingMetadata
  unfolding remove_keys
  remove_stale_scan_metadata current m = remove_keys current (keys m.scan_metadata) m

  unfoldable pub clear_summary : QueryTimingMetadata → QueryTimingMetadata
  clear_summary m = record m { query_row_summary = [] }

  unfoldable pub clear_scan_metadata : QueryTimingMetadata → QueryTimingMetadata
  clear_scan_metadata m = record m { scan_metadata = [] }

  -- The hub's timing, nil for a local hub, and what was added to the hydrate calls counter.
  pub record TimedHub : Type 0 where
    pub query_timing : Option QueryTimingMetadata
    pub hydrate_calls_counter : List ℤ

  -- The loop of `AddScanMetadata` over the rows of the scan.
  unfoldable pub add_rows :
      ℤ
      → List ScanMetadataRow
      → Summary × QueryTimingMetadata × List ℤ
      → Summary × QueryTimingMetadata × List ℤ
  unfolding add_scan_metadata
  add_rows query_timestamp [] s = s
  add_rows query_timestamp (row ∷ rows) (summary, m, counter) = add_rows query_timestamp rows (
    update summary row,
    add_scan_metadata query_timestamp row m,
    counter ++ row.hydrate_calls ∷ [],
  )

  abbrev pub summary_or_new : Option Summary → Summary
  summary_or_new none = new_summary
  summary_or_new (some s) = s

  -- The part of `AddScanMetadata` behind its guards.
  unfoldable pub record_scan : PluginScan → QueryTimingMetadata → List ℤ → TimedHub
  unfolding remove_stale_scan_metadata add_rows
  record_scan scan m counter =
      let t = scan.query_timestamp in
      let summary = summary_or_new (lookup t m.query_row_summary) in
      let (summary', m', counter') =
        add_rows t scan.scan_rows (summary, remove_stale_scan_metadata t m, counter) in
      record {
        query_timing =
            some (record m' { query_row_summary = insert t summary' m'.query_row_summary });
        hydrate_calls_counter = counter';
      }

  -- `none` is an iterator that is no plugin iterator.
  unfoldable pub add_scan_metadata_of : Option PluginScan → TimedHub → TimedHub
  unfolding record_scan
  add_scan_metadata_of none h = h
  add_scan_metadata_of (some scan) h = elim h.query_timing [
    | none ↦ h
    | some m ↦ record_scan scan m h.hydrate_calls_counter
  ]

  unfoldable pub summary_rows : GoMap ℤ Summary → List ResultRow
  summary_rows [] = []
  summary_rows ((t, s) ∷ m) = summary_row s ∷ summary_rows m

  unfoldable pub metadata_rows : GoMap ℤ (List ScanMetadataRow) → List ResultRow
  metadata_rows [] = []
  metadata_rows ((t, rows) ∷ m) = map metadata_row rows ++ metadata_rows m

  -- The rows of the in-memory iterator that the function returns, or its error.
  abbrev pub Outcome : Type 0
  Outcome = Go (Result CommandScanError (List ResultRow)) × TimedHub

  unfoldable pub scan_summary : String → TimedHub → Option QueryTimingMetadata → Outcome
  unfolding summary_rows clear_summary
  scan_summary table h none = (panic, h)
  scan_summary table h (some m) =
      if ltb 1 (length m.query_row_summary)
      then (ok (fail (too_many table (length m.query_row_summary))), h)
      else (
        ok (value (summary_rows m.query_row_summary)),
        record h { query_timing = some (clear_summary m) },
      )

  unfoldable pub scan_metadata_table : String → TimedHub → Option QueryTimingMetadata → Outcome
  unfolding metadata_rows clear_scan_metadata
  scan_metadata_table table h none = (panic, h)
  scan_metadata_table table h (some m) =
      if ltb 1 (length m.scan_metadata)
      then (ok (fail (too_many table (length m.scan_metadata))), h)
      else (
        ok (value (metadata_rows m.scan_metadata)),
        record h { query_timing = some (clear_scan_metadata m) },
      )

  -- A hub with no timing has a nil pointer here, which the two tables follow.
  unfoldable pub execute_command_scan : String → TimedHub → Outcome
  unfolding scan_summary scan_metadata_table
  execute_command_scan table h =
      if table == foreign_table_scan_metadata_summary
      then scan_summary table h h.query_timing
      else if table == foreign_table_scan_metadata || table == legacy_command_table_scan_metadata
      then scan_metadata_table table h h.query_timing
      else (ok (fail (no_such_table table)), h)
