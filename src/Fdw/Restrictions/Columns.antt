-- ===== src/Fdw/Restrictions/Columns.antt =====
-- The quals of one column keep the rows that its tests accept.
use steampipe_postgres_fdw.Prelude.{
  if◌then◌else◌, Bool-cases, ◌==◌, nat_eq, string_eq, ==_refl, ℕ, String, ◌≡◌, refl, ap, ◌∙◌, inl,
  inr, Bool, true, false, Option, none, some, arith,
}
use steampipe_postgres_fdw.Prelude.Int.{ℤ, pos, ltb_ℤ, ◌-ℤ◌}
use steampipe_postgres_fdw.Proto.{QualValue, Qual}
use steampipe_postgres_fdw.Fdw.Restrictions.Nodes.{
  Environment, ConversionInfo, ConversionInfos, get, BoolTestType, is_true, is_not_true, is_false,
  is_not_false, is_unknown, is_not_unknown, Node, var,
}
use steampipe_postgres_fdw.Fdw.Restrictions.Defs.{
  qual_from_null_test, qual_from_boolean_test, column_from_var, column_qual, true_value, go_string,
  attribute_name, null_operator,
}
use steampipe_postgres_fdw.Fdw.Restrictions.Meaning.{
  Row, World, Documented, NamesColumns, matches, cell_matches, keeps, value_in, boolean_value,
  test_truth, null_truth, truth,
}
use steampipe_postgres_fdw.Fdw.Restrictions.Operands.{keeps-cell, value_in-base}
use steampipe_postgres_fdw.Fdw.Restrictions.Supported.{OfBase, Faithful}

pub test_is_true : (x : Option Bool) → test_truth is_true x ≡ true → x ≡ some true
test_is_true none e = cc
test_is_true (some b) e = ap some e

pub test_is_false : (x : Option Bool) → test_truth is_false x ≡ true → x ≡ some false
test_is_false none e = cc
test_is_false (some true) e = cc
test_is_false (some false) e = refl

pub column_choice :
    (negative : Bool) (s name : String)
    → ((s == "") ≡ false → s ≡ name)
    → ((if negative then "" else s) == "") ≡ false
    → (if negative then "" else s) ≡ name
column_choice true s name h f = cc
column_choice false s name h f = h f

module _ {env : Environment} (w : World env) (infos : ConversionInfos) (base : ℕ)
    (doc : Documented w base) (names : NamesColumns w infos) (row : Row) where
  pub column_name_lem :
      (attno : ℤ) (o : Option ConversionInfo)
      → get infos (attno -ℤ pos 1) ≡ o
      → (attribute_name o == "") ≡ false
      → attribute_name o ≡ w.column_name attno
  column_name_lem attno none e f = absurd (ground arith)
  column_name_lem attno (some ci) e f = ap go_string (names attno ci e)

  pub column_from_var-name :
      (attno : ℤ)
      → (column_from_var env infos attno == "") ≡ false
      → column_from_var env infos attno ≡ w.column_name attno
  unfolding column_from_var
  column_from_var-name attno f =
      column_choice (ltb_ℤ (attno -ℤ pos 1) (pos 0)) _ (w.column_name attno)
        (column_name_lem attno (get infos (attno -ℤ pos 1)) refl) f

  pub column_qual_parts :
      (attno : ℤ) (operator : String) (v : Option QualValue) (q : Qual)
      → column_qual (column_from_var env infos attno) operator v ≡ some q
      → (q.field_name ≡ w.column_name attno) × (q.operator ≡ operator) × (q.value ≡ v)
  unfolding column_qual
  column_qual_parts attno operator v q e = ground (arith, column_from_var-name attno)

  pub true_cell :
      (cell : Option ℕ)
      → boolean_value w base row cell ≡ some true
      → cell_matches w "=" cell true_value ≡ true
  unfolding cell_matches matches
  true_cell none e = cc
  true_cell (some a) e = doc.equals_true a ∙ ground arith

  pub false_cell :
      (cell : Option ℕ)
      → boolean_value w base row cell ≡ some false
      → cell_matches w "<>" cell true_value ≡ true
  unfolding cell_matches matches
  false_cell none e = cc
  false_cell (some a) e = doc.differs_true a ∙ ground arith

  pub equals_true_kept :
      (rel : ℕ) (attno : ℤ) (q : Qual)
      → (rel == base) ≡ true
      → column_qual (column_from_var env infos attno) "=" true_value ≡ some q
      → truth w base row (var rel attno) ≡ some true
      → keeps w row q ≡ true
  unfolding truth
  equals_true_kept rel attno q h e t =
      keeps-cell w infos base doc names row q (w.column_name attno) "=" true_value
        doc.equals_no_null_test doc.equals_no_not_null_test
        (column_qual_parts attno "=" true_value q e)
      ∙ true_cell (row (w.column_name attno))
          (rw (value_in-base w infos base doc names row rel attno h) at t)

  pub differs_true_kept :
      (rel : ℕ) (attno : ℤ) (q : Qual)
      → (rel == base) ≡ true
      → column_qual (column_from_var env infos attno) "<>" true_value ≡ some q
      → truth w base row (var rel attno) ≡ some false
      → keeps w row q ≡ true
  unfolding truth
  differs_true_kept rel attno q h e t =
      keeps-cell w infos base doc names row q (w.column_name attno) "<>" true_value
        doc.differs_no_null_test doc.differs_no_not_null_test
        (column_qual_parts attno "<>" true_value q e)
      ∙ false_cell (row (w.column_name attno))
          (rw (value_in-base w infos base doc names row rel attno h) at t)

  pub keeps-null_test :
      (is_null : Bool) (q : Qual) (column : String)
      → q.field_name ≡ column
      → q.operator ≡ null_operator env infos is_null
      → keeps w row q ≡ null_truth is_null (row column)
  unfolding keeps
  keeps-null_test true q column f e = rw (f, e, ==_refl env.is_null_operator) refl
  keeps-null_test false q column f e =
      rw (f, e, doc.null_operators_differ, ==_refl env.is_not_null_operator) refl

  pub null_test_kept :
      (is_null : Bool) (n : Node) (q : Qual)
      → OfBase base n
      → qual_from_null_test env infos is_null n ≡ some q
      → null_truth is_null (value_in w base row n) ≡ true
      → keeps w row q ≡ true
  unfolding qual_from_null_test
  null_test_kept is_null (var rel attno) q h e t = elim (Bool-cases (ltb_ℤ attno (pos 1))) [
    | inl y ↦ absurd (let bad : none ≡ some q = rw y at e in ground arith)
    | inr n ↦
        let k = column_qual_parts attno (null_operator env infos is_null) none q (rw n at e) in
        keeps-null_test is_null q (w.column_name attno) k.0 k.1
        ∙ rw (value_in-base w infos base doc names row rel attno h) at t
  ]
  null_test_kept is_null _ q h e t = cc

  pub boolean_test_kept :
      (test : BoolTestType) (n : Node) (q : Qual)
      → Faithful test
      → OfBase base n
      → qual_from_boolean_test env infos test n ≡ some q
      → test_truth test (truth w base row n) ≡ true
      → keeps w row q ≡ true
  unfolding qual_from_boolean_test
  boolean_test_kept is_true (var rel attno) q f h e t =
      equals_true_kept rel attno q h e (test_is_true (truth w base row (var rel attno)) t)
  boolean_test_kept is_false (var rel attno) q f h e t =
      differs_true_kept rel attno q h e (test_is_false (truth w base row (var rel attno)) t)
  boolean_test_kept is_not_true (var rel attno) q f h e t = elim f [ ]
  boolean_test_kept is_not_false (var rel attno) q f h e t = cc
  boolean_test_kept is_unknown (var rel attno) q f h e t = cc
  boolean_test_kept is_not_unknown (var rel attno) q f h e t = cc
  boolean_test_kept _ _ q f h e t = cc
