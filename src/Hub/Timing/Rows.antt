-- ===== src/Hub/Timing/Rows.antt =====
-- The loop of `AddScanMetadata` over the rows of a scan.
use mathlib.Core.List.{append-nil, append_assoc, foldl}
use steampipe_postgres_fdw.Prelude.{
  List, [], ◌∷◌, ◌++◌, ◌≡◌, ◌⊎◌, refl, sym, ◌∙◌, subst, map, inl, inr, In, ==_refl,
}
use steampipe_postgres_fdw.Prelude.Int.{ℤ, int_eq}
use steampipe_postgres_fdw.Prelude.GoMap.{
  lookup, keys, IsMap, IsMap-insert, In-keys-insert, lookup-insert,
}
use steampipe_postgres_fdw.Hub.Timing.Defs.{
  ScanMetadataRow, Environment, QueryTimingMetadata, rows_or_nil, add_scan_metadata, add_rows,
}
use steampipe_postgres_fdw.Hub.Timing.Slowest.{KeepsSlowest, add_row-KeepsSlowest}

module _ (env : Environment) where
  open env use {Summary, update}

  -- The list that is kept for a query.
  abbrev pub list_of : ℤ → QueryTimingMetadata env → List ScanMetadataRow
  list_of t m = rows_or_nil env (lookup t m.scan_metadata)

  module _ (t : ℤ) where
    pub summary-add_rows :
        (rows : List ScanMetadataRow) (s : Summary) (m : QueryTimingMetadata env) (c : List ℤ)
        → (add_rows env t rows (s, m, c)).0 ≡ foldl update s rows
    unfolding add_rows
    summary-add_rows [] s m c = refl
    summary-add_rows (r ∷ rows) s m c = summary-add_rows rows _ _ _

    pub summaries-add_rows :
        (rows : List ScanMetadataRow) (s : Summary) (m : QueryTimingMetadata env) (c : List ℤ)
        → (add_rows env t rows (s, m, c)).1.query_row_summary ≡ m.query_row_summary
    unfolding add_rows
    summaries-add_rows [] s m c = refl
    summaries-add_rows (r ∷ rows) s m c = summaries-add_rows rows _ (add_scan_metadata env t r m) _

    pub counter-add_rows :
        (rows : List ScanMetadataRow) (s : Summary) (m : QueryTimingMetadata env) (c : List ℤ)
        → (add_rows env t rows (s, m, c)).2 ≡ c ++ map (λ r. r.hydrate_calls) rows
    unfolding add_rows
    counter-add_rows [] s m c = sym (append-nil c)
    counter-add_rows (r ∷ rows) s m c =
        counter-add_rows rows _ _ (c ++ r.hydrate_calls ∷ [])
        ∙ append_assoc c (r.hydrate_calls ∷ []) _

    pub In-keys-add_rows :
        (rows : List ScanMetadataRow) (s : Summary) (m : QueryTimingMetadata env) (c : List ℤ)
        (j : ℤ)
        → In j (keys (add_rows env t rows (s, m, c)).1.scan_metadata)
        → (t ≡ j) ⊎ In j (keys m.scan_metadata)
    unfolding add_rows
    In-keys-add_rows [] s m c j h = inr h
    In-keys-add_rows (r ∷ rows) s m c j h =
        elim (In-keys-add_rows rows (update s r) (add_scan_metadata env t r m) _ j h) [
          | inl e ↦ inl e
          | inr g ↦ In-keys-insert t j _ m.scan_metadata g
        ]

    pub IsMap-add_rows :
        (rows : List ScanMetadataRow) (s : Summary) (m : QueryTimingMetadata env) (c : List ℤ)
        → IsMap m.scan_metadata
        → IsMap (add_rows env t rows (s, m, c)).1.scan_metadata
    unfolding add_rows
    IsMap-add_rows [] s m c h = h
    IsMap-add_rows (r ∷ rows) s m c h =
        IsMap-add_rows rows (update s r) (add_scan_metadata env t r m) _
          (IsMap-insert t _ m.scan_metadata h)

    pub add_rows-KeepsSlowest :
        (rows : List ScanMetadataRow) (s : Summary) (m : QueryTimingMetadata env) (c : List ℤ)
        (all : List ScanMetadataRow)
        → KeepsSlowest (list_of t m) all
        → KeepsSlowest (list_of t (add_rows env t rows (s, m, c)).1) (all ++ rows)
    unfolding add_rows
    add_rows-KeepsSlowest [] s m c all k = rw append-nil k
    add_rows-KeepsSlowest (r ∷ rows) s m c all k =
        subst (KeepsSlowest _) (append_assoc all (r ∷ []) rows) (
          add_rows-KeepsSlowest rows (update s r) (add_scan_metadata env t r m) _ (all ++ r ∷ [])
            (rw (lookup-insert, ==_refl t) (add_row-KeepsSlowest env (list_of t m) all r k)))
