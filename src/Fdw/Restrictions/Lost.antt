-- ===== src/Fdw/Restrictions/Lost.antt =====
-- Where a qual loses rows: IS NOT TRUE accepts a NULL, and the qual it becomes does not.
use steampipe_postgres_fdw.Prelude.{
  nat_eq, string_eq, ==_refl, ℕ, ◌≡◌, refl, ◌∙◌, true, false, none, some,
}
use steampipe_postgres_fdw.Prelude.Int.{ℤ}
use steampipe_postgres_fdw.Proto.{Qual}
use steampipe_postgres_fdw.Fdw.Restrictions.Nodes.{
  Environment, ConversionInfos, var, boolean_test, is_not_true,
}
use steampipe_postgres_fdw.Fdw.Restrictions.Defs.{
  single_restriction_to_qual, qual_from_boolean_test, true_value,
}
use steampipe_postgres_fdw.Fdw.Restrictions.Meaning.{
  Row, World, Documented, NamesColumns, cell_matches, keeps, truth,
}
use steampipe_postgres_fdw.Fdw.Restrictions.Operands.{keeps-cell, value_in-base}
use steampipe_postgres_fdw.Fdw.Restrictions.Columns.{column_qual_parts}

-- The qual of IS NOT TRUE drops every row whose column is NULL, which the restriction accepts.
pub is_not_true_loses_nulls :
    {env : Environment} (w : World env) (infos : ConversionInfos) (base : ℕ)
    → Documented w base
    → NamesColumns w infos
    → (row : Row) (attno : ℤ) (q : Qual)
    → single_restriction_to_qual env infos base (boolean_test is_not_true (var base attno)) ≡ some q
    → row (w.column_name attno) ≡ none
    → (truth w base row (boolean_test is_not_true (var base attno)) ≡ some true)
      × (keeps w row q ≡ false)
unfolding single_restriction_to_qual qual_from_boolean_test truth cell_matches
is_not_true_loses_nulls w infos base doc names row attno q e missing =
    let cell = value_in-base w infos base doc names row base attno (==_refl base) ∙ missing in
    (
      rw cell refl,
      keeps-cell w infos base doc names row q (w.column_name attno) "<>" true_value
            doc.differs_no_null_test doc.differs_no_not_null_test
            (column_qual_parts w infos base doc names row attno "<>" true_value q e)
          ∙ rw missing refl,
    )
