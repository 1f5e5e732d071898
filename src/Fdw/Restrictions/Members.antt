-- ===== src/Fdw/Restrictions/Members.antt =====
-- An OR of comparisons of one column by =, and the IN that qualFromBoolExpr makes of it.
use steampipe_postgres_fdw.Prelude.{
  nat_eq, string_eq, ==_iff, ℕ, String, ◌≡◌, refl, sym, ◌∙◌, Bool, true, false, ◌||◌, Option, none,
  some, List, [], ◌∷◌, arith,
}
use steampipe_postgres_fdw.Proto.{QualValue, QualValueList, list_value, Qual}
use steampipe_postgres_fdw.Fdw.Restrictions.Nodes.{Environment}
use steampipe_postgres_fdw.Fdw.Restrictions.Values.{to_list}
use steampipe_postgres_fdw.Fdw.Restrictions.Defs.{in_qual, all_equal_on, values_of}
use steampipe_postgres_fdw.Fdw.Restrictions.Meaning.{
  Row, World, Documented, matches, any_matches, cell_matches, keeps, any_keeps,
}

abbrev in_cell : {env : Environment} → World env → Option ℕ → QualValueList → Bool
in_cell w none l = false
in_cell w (some a) l = any_matches w a l

module _ {env : Environment} (w : World env) (base : ℕ) (doc : Documented w base) (row : Row) where
  pub keeps-equals :
      (q : Qual) (field : String)
      → q.field_name ≡ field
      → q.operator ≡ "="
      → keeps w row q ≡ cell_matches w "=" (row field) q.value
  unfolding keeps
  keeps-equals q field f e = rw (e, f, doc.equals_no_null_test, doc.equals_no_not_null_test) refl

  in_cell-item :
      (cell : Option ℕ) (v : Option QualValue) (l : List (Option QualValue))
      → (cell_matches w "=" cell v || in_cell w cell (to_list l)) ≡ in_cell w cell (to_list (v ∷ l))
  unfolding cell_matches any_matches to_list
  in_cell-item none v l = refl
  in_cell-item (some a) none l = refl
  in_cell-item (some a) (some v) l = refl

  empty : (cell : Option ℕ) → false ≡ in_cell w cell (to_list [])
  unfolding any_matches to_list
  empty none = refl
  empty (some a) = refl

  any_keeps-all_equal :
      (field : String) (qs : List Qual)
      → all_equal_on field qs ≡ true
      → any_keeps w row qs ≡ in_cell w (row field) (to_list (values_of qs))
  unfolding any_keeps all_equal_on
  any_keeps-all_equal field [] h = empty (row field)
  any_keeps-all_equal field (q ∷ qs) h =
      rw
        (
          keeps-equals q field ((==_iff q.field_name field).0 (ground arith))
              ((==_iff q.operator "=").0 (ground arith)),
          any_keeps-all_equal field qs (ground arith),
        )
        (in_cell-item (row field) q.value (values_of qs))

  cell_matches-list :
      (cell : Option ℕ) (l : QualValueList)
      → cell_matches w "=" cell (some (list_value l)) ≡ in_cell w cell l
  unfolding cell_matches matches
  cell_matches-list none l = refl
  cell_matches-list (some a) l = refl

  in_qual_parts :
      (p : Qual) (qs : List Qual) (q : Qual)
      → in_qual (p ∷ qs) ≡ some q
      → (all_equal_on p.field_name (p ∷ qs) ≡ true)
        × (q.field_name ≡ p.field_name)
        × (q.operator ≡ "=")
        × (q.value ≡ some (list_value (to_list (values_of (p ∷ qs)))))
  unfolding in_qual
  in_qual_parts p qs q e = ground arith

  -- The qual that an OR of comparisons becomes keeps exactly the rows that one of the comparisons
  -- keeps.
  pub in_qual-any :
      (qs : List Qual) (q : Qual) → in_qual qs ≡ some q → keeps w row q ≡ any_keeps w row qs
  unfolding in_qual
  in_qual-any [] q e = cc
  in_qual-any (p ∷ qs) q e =
      let k = in_qual_parts p qs q e in
      keeps-equals q p.field_name k.1 k.2
      ∙ rw k.3 (cell_matches-list (row p.field_name) (to_list (values_of (p ∷ qs))))
      ∙ sym (any_keeps-all_equal p.field_name (p ∷ qs) k.0)
