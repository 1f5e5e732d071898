-- ===== src/PathKeys/Distinct.antt =====
-- types/pathkeys.go: the key columns of a well-formed table are removed with no slot left over.
use mathlib.Core.List.{append-nil}
use steampipe_postgres_fdw.Prelude.{
  ◌+◌, String, false, List, [], ◌∷◌, length, keep, ok, string_eq, ◌≡◌, subst, ◌∙◌, refl, arith, inl,
  inr, In, Distinct, ==_iff, sym, ap, map, All,
}
use steampipe_postgres_fdw.Proto.{KeyColumn}
use steampipe_postgres_fdw.PathKeys.Defs.{
  key_column_array_contains_column, remove_key_columns_from_all_columns,
}
use steampipe_postgres_fdw.PathKeys.Columns.{other_columns, remove_key_columns_lem}

abbrev pub names : List KeyColumn → List String
names keys = map (λ k. k.name) keys

-- Each key column is declared once and is a column of the table, and no column stands twice.
pub record IsKeyed (keys : List KeyColumn) (all : List String) : Type 0 where
  pub distinct_keys : Distinct (names keys)
  pub distinct_columns : Distinct all
  pub known_keys : All (λ k. In k.name all) keys

not-contains :
    (keys : List KeyColumn) (c : String)
    → ¬ In c (names keys)
    → key_column_array_contains_column keys c ≡ false
unfolding key_column_array_contains_column
not-contains [] c h = refl
not-contains (k ∷ ks) c h =
    ground
      (arith, ==_iff k.name c, λ (e : k.name ≡ c). h (inl e), not-contains ks c (λ m. h (inr m)))

other_columns-nil : (all : List String) → other_columns [] all ≡ all
unfolding keep key_column_array_contains_column
other_columns-nil [] = refl
other_columns-nil (c ∷ cs) = ap (λ l. c ∷ l) (other_columns-nil cs)

module _ (k : KeyColumn) (ks : List KeyColumn) where
  absent_key :
      (all : List String) → ¬ In k.name all → other_columns (k ∷ ks) all ≡ other_columns ks all
  unfolding keep key_column_array_contains_column
  absent_key [] h = refl
  absent_key (c ∷ cs) h =
      ground (arith, ==_iff k.name c, λ (e : c ≡ k.name). h (inl e), absent_key cs (λ m. h (inr m)))

  present_key :
      (all : List String)
      → Distinct all
      → key_column_array_contains_column ks k.name ≡ false
      → In k.name all
      → length (other_columns (k ∷ ks) all) + 1 ≡ length (other_columns ks all)
  unfolding keep key_column_array_contains_column
  present_key [] d fresh h = elim h [ ]
  present_key (c ∷ cs) d fresh (inl e) = ground (
    arith,
    ==_iff k.name c,
    absent_key cs (λ m. d.0 (subst (λ x. In x cs) (sym e) m)),
    ap (key_column_array_contains_column ks) e,
  )
  present_key (c ∷ cs) d fresh (inr m) = ground (
    arith,
    ==_iff k.name c,
    present_key cs d.1 fresh m,
    λ (e : k.name ≡ c). d.0 (subst (λ x. In x cs) e m),
  )

length-other_columns :
    (keys : List KeyColumn) (all : List String)
    → Distinct (names keys)
    → Distinct all
    → All (λ k. In k.name all) keys
    → length keys + length (other_columns keys all) ≡ length all
length-other_columns [] all dk da known = rw other_columns-nil (omega arith)
length-other_columns (k ∷ ks) all dk da known = omega (
  arith,
  present_key k ks all da (not-contains ks k.name dk.0) known.0,
  length-other_columns ks all dk.1 da known.1,
)

-- For a table whose key columns are distinct columns of it, `removeKeyColumnsFromAllColumns`
-- does not panic, and returns the columns that are no key column, in order, and nothing else.
pub remove_key_columns_exact :
    (keys : List KeyColumn) (all : List String)
    → IsKeyed keys all
    → remove_key_columns_from_all_columns keys all ≡ ok (other_columns keys all)
remove_key_columns_exact keys all h =
    let count = length-other_columns keys all h.distinct_keys h.distinct_columns h.known_keys in
    remove_key_columns_lem keys all ∙ ground (arith, count, append-nil (other_columns keys all))
