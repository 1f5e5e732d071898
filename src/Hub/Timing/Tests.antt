-- ===== src/Hub/Timing/Tests.antt =====
-- Three scans, and an environment in which rows are sorted by insertion.
use mathlib.Core.List.{Permᴰ}
use mathlib.Core.List.Permᴰ
use steampipe_postgres_fdw.Prelude.{
  ℕ, ◌+◌, String, List, [], ◌∷◌, some, if◌then◌else◌, ◌≡◌, ◌≢◌, refl, arith, string_eq, All,
  All-imp, map, Bool-cases, inl, inr, ok, value, fail,
}
use steampipe_postgres_fdw.Prelude.Int.{ℤ, pos, ltb_ℤ, int_eq}
use steampipe_postgres_fdw.Prelude.GoMap.{lookup, insert, erase}
use steampipe_postgres_fdw.Hub.Timing.Defs.{
  ScanMetadataRow, NotFaster, IsSorted, Environment, QueryTimingMetadata, PluginScan, TimedHub,
  too_many, add_scan_metadata_of, execute_command_scan,
}
use steampipe_postgres_fdw.Hub.Timing.Slowest.{KeepsSlowest}
use steampipe_postgres_fdw.Hub.Timing.OneQuery.{IsTidy}
use steampipe_postgres_fdw.Hub.Timing.Tables.{read_scan_metadata}
use steampipe_postgres_fdw.Hub.Timing.Orphans.{Later, summary_lost}

insert_row : ScanMetadataRow → List ScanMetadataRow → List ScanMetadataRow
insert_row r [] = r ∷ []
insert_row r (x ∷ l) =
    let rest = insert_row r l in if ltb_ℤ r.duration_ms x.duration_ms then x ∷ rest else r ∷ x ∷ l

insertion_sort : List ScanMetadataRow → List ScanMetadataRow
unfolding insert_row
insertion_sort [] = []
insertion_sort (r ∷ l) = insert_row r (insertion_sort l)

insert_row-perm : (r : ScanMetadataRow) (l : List ScanMetadataRow) → Permᴰ (insert_row r l) (r ∷ l)
unfolding insert_row
insert_row-perm r [] = Permᴰ.refl (r ∷ [])
insert_row-perm r (x ∷ l) = elim (Bool-cases (ltb_ℤ r.duration_ms x.duration_ms)) [
  | inl y ↦ rw y (Permᴰ.trans (Permᴰ.cons refl (insert_row-perm r l)) (Permᴰ.swap refl refl))
  | inr n ↦ rw n (Permᴰ.refl (r ∷ x ∷ l))
]

insertion_sort-perm : (l : List ScanMetadataRow) → Permᴰ (insertion_sort l) l
unfolding insertion_sort
insertion_sort-perm [] = Permᴰ.nil
insertion_sort-perm (r ∷ l) =
    Permᴰ.trans (insert_row-perm r (insertion_sort l)) (Permᴰ.cons refl (insertion_sort-perm l))

All-insert_row :
    (x r : ScanMetadataRow) (l : List ScanMetadataRow)
    → NotFaster x r
    → All (NotFaster x) l
    → All (NotFaster x) (insert_row r l)
unfolding insert_row
All-insert_row x r [] h k = (h, tt)
All-insert_row x r (y ∷ l) h k = elim (Bool-cases (ltb_ℤ r.duration_ms y.duration_ms)) [
  | inl e ↦ rw e (k.0, All-insert_row x r l h k.1)
  | inr e ↦ rw e (h, k)
]

insert_row-IsSorted :
    (r : ScanMetadataRow) (l : List ScanMetadataRow) → IsSorted l → IsSorted (insert_row r l)
unfolding insert_row
insert_row-IsSorted r [] h = (tt, tt)
insert_row-IsSorted r (x ∷ l) h = elim (Bool-cases (ltb_ℤ r.duration_ms x.duration_ms)) [
  | inl y ↦ rw y (All-insert_row x r l (ground arith) h.0, insert_row-IsSorted r l h.1)
  | inr n ↦
      let slower : NotFaster r x = ground arith in
      rw n ((slower, All-imp (NotFaster x) (NotFaster r) (λ a k. omega arith) l h.0), h)
]

insertion_sort-IsSorted : (l : List ScanMetadataRow) → IsSorted (insertion_sort l)
unfolding insertion_sort
insertion_sort-IsSorted [] = tt
insertion_sort-IsSorted (r ∷ l) =
    insert_row-IsSorted r (insertion_sort l) (insertion_sort-IsSorted l)

names_differ : ◌≢◌ {A = String} "steampipe_scan_metadata" "steampipe_scan_metadata_summary"
names_differ e =
    cc ((string_eq.same_iff "steampipe_scan_metadata" "steampipe_scan_metadata_summary").1 e)

-- A summary counts the scans.
abbrev env : Environment
env = record {
  Summary = ℕ;
  new_summary = 0;
  update = λ n r. n + 1;
  ResultRow = ℤ;
  summary_row = pos;
  metadata_row = λ r. r.duration_ms;
  foreign_table_scan_metadata_summary = "steampipe_scan_metadata_summary";
  foreign_table_scan_metadata = "steampipe_scan_metadata";
  legacy_command_table_scan_metadata = "scan_metadata";
  tables_differ = names_differ;
  sort_slice = insertion_sort;
  sort_slice-perm = insertion_sort-perm;
  sort_slice-IsSorted = insertion_sort-IsSorted;
}

abbrev row : ℕ → ScanMetadataRow
row ms = record { connection = "aws"; table = "t"; hydrate_calls = pos 1; duration_ms = pos ms }

abbrev first : PluginScan
first = record { query_timestamp = pos 1; scan_rows = row 5 ∷ row 9 ∷ [] }

abbrev second : PluginScan
second = record { query_timestamp = pos 2; scan_rows = row 7 ∷ [] }

abbrev timing : QueryTimingMetadata env
timing = record {
  scan_metadata = (pos 1, row 9 ∷ row 5 ∷ []) ∷ [];
  query_row_summary = (pos 1, 2) ∷ [];
}

abbrev hub : TimedHub env
hub = record { query_timing = some timing; hydrate_calls_counter = [] }

recorded_first :
    (add_scan_metadata_of env (some first) (record {
      query_timing = some (record { scan_metadata = []; query_row_summary = [] });
      hydrate_calls_counter = [];
    })).query_timing
    ≡ some timing
unfolding add_scan_metadata_of insertion_sort lookup insert erase
recorded_first = refl

timing-IsTidy : IsTidy env timing
timing-IsTidy = record {
  scans_map = ((λ h. elim h [ ]), tt);
  summaries_map = ((λ h. elim h [ ]), tt);
  no_orphan = λ t h. h;
}

timing-KeepsSlowest : KeepsSlowest (row 9 ∷ row 5 ∷ []) (row 9 ∷ row 5 ∷ [])
timing-KeepsSlowest = record {
  dropped = [];
  perm = Permᴰ.refl (row 9 ∷ row 5 ∷ []);
  sorted = ((omega arith, tt), (tt, tt));
  slowest = (tt, (tt, tt));
  bounded = omega arith;
  full = λ _. refl;
}

nothing-KeepsSlowest : KeepsSlowest [] []
nothing-KeepsSlowest = record {
  dropped = [];
  perm = Permᴰ.nil;
  sorted = tt;
  slowest = tt;
  bounded = omega arith;
  full = λ _. refl;
}

read_scan_metadata_example :
    (rows : List ScanMetadataRow) × ((execute_command_scan env "steampipe_scan_metadata"
        (add_scan_metadata_of env (some second) hub)).0
      ≡ ok (value (map (λ r. r.duration_ms) rows)))
    × KeepsSlowest rows (row 7 ∷ [])
unfolding lookup
read_scan_metadata_example =
    read_scan_metadata env second hub timing refl [] ((λ h. elim h [ ]), tt) nothing-KeepsSlowest

apart : pos 1 ≢ pos 2
apart e = cc ((int_eq.same_iff (pos 1) (pos 2)).1 e)

abbrev lost : TimedHub env
lost =
    add_scan_metadata_of env (some second)
      (execute_command_scan env "steampipe_scan_metadata" hub).1

summary_lost_example :
    (n : ℕ) × ((execute_command_scan env "steampipe_scan_metadata_summary" lost).0
      ≡ ok (fail (too_many "steampipe_scan_metadata_summary" n)))
summary_lost_example =
    summary_lost env (pos 1) second hub timing refl (inl refl) (omega arith) apart lost Later.here
