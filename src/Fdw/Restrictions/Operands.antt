-- ===== src/Fdw/Restrictions/Operands.antt =====
-- What canonicalOpExpr leaves unchanged: the truth of a comparison.
use steampipe_postgres_fdw.Prelude.{
  Bool-cases, ◌==◌, nat_eq, string_eq, ℕ, String, ◌≡◌, refl, sym, ◌∙◌, inl, inr, Bool, true, false,
  not, ◌&&◌, Option, none, some, arith,
}
use steampipe_postgres_fdw.Prelude.Int.{ℤ}
use steampipe_postgres_fdw.Proto.{QualValue, Qual}
use steampipe_postgres_fdw.Fdw.Restrictions.Nodes.{
  Environment, ConversionInfos, Node, var, const, param, op_expr, scalar_array_op_expr, null_test,
  boolean_test, bool_expr, relabel_type, array_coerce_expr, other_node, Args, no_args, arg,
}
use steampipe_postgres_fdw.Fdw.Restrictions.Defs.{
  Comparison, operands, unnest_clause, swap_operands, base_comparison, canonical_op_expr,
  canonical_scalar_array_op_expr, wants_swap,
}
use steampipe_postgres_fdw.Fdw.Restrictions.Meaning.{
  Row, World, Documented, NamesColumns, cell_matches, keeps, value_in, strict, operator_truth,
}
use steampipe_postgres_fdw.Fdw.Restrictions.Supported.{NotCoerced, BothNotCoerced}

pub strict-true :
    (g : ℕ → ℕ → Option Bool) (x y : Option ℕ)
    → strict g x y ≡ some true
    → (a : ℕ) × (d : ℕ) × (x ≡ some a) × (y ≡ some d) × (g a d ≡ some true)
strict-true g none y e = cc
strict-true g (some a) none e = cc
strict-true g (some a) (some d) e = (a, d, refl, refl, e)

module _ {env : Environment} (w : World env) (infos : ConversionInfos) (base : ℕ)
    (doc : Documented w base) (names : NamesColumns w infos) (row : Row) where
  -- A qual that is no test for NULL.
  pub keeps-cell :
      (q : Qual) (column operator : String) (v : Option QualValue)
      → (operator == env.is_null_operator) ≡ false
      → (operator == env.is_not_null_operator) ≡ false
      → (q.field_name ≡ column) × (q.operator ≡ operator) × (q.value ≡ v)
      → keeps w row q ≡ cell_matches w operator (row column) v
  unfolding keeps
  keeps-cell q column operator v f g k = rw (k.0, k.1, k.2, f, g) refl

  pub value_in-base :
      (rel : ℕ) (attno : ℤ)
      → (rel == base) ≡ true
      → value_in w base row (var rel attno) ≡ row (w.column_name attno)
  unfolding value_in
  value_in-base rel attno h = rw h refl

  pub value_in-unnest :
      (n : Node) → NotCoerced n → value_in w base row (unnest_clause n) ≡ value_in w base row n
  unfolding value_in unnest_clause
  value_in-unnest (array_coerce_expr n) h = elim h [ ]
  value_in-unnest (var rel attno) h = refl
  value_in-unnest (const t d b) h = refl
  value_in-unnest (param t id) h = refl
  value_in-unnest (op_expr o f t args) h = refl
  value_in-unnest (scalar_array_op_expr o u args) h = refl
  value_in-unnest (null_test b n) h = refl
  value_in-unnest (boolean_test t n) h = refl
  value_in-unnest (bool_expr op n args) h = refl
  value_in-unnest (relabel_type n) h = refl
  value_in-unnest (other_node tag) h = refl

  pub strict-swap :
      (o : ℕ) (a b : Option ℕ)
      → (env.commutator o == 0) ≡ false
      → strict (w.apply (env.commutator o)) b a ≡ strict (w.apply o) a b
  strict-swap o none none h = refl
  strict-swap o none (some b) h = refl
  strict-swap o (some a) none h = refl
  strict-swap o (some a) (some b) h = doc.commutes o a b h

  abbrev pub swapped_truth : ℕ × (Node × Node) → Option Bool
  swapped_truth s = strict (w.apply s.0) (value_in w base row s.1.0) (value_in w base row s.1.1)

  pub swap_operands-truth :
      (o : ℕ) (l r : Node)
      → swapped_truth (swap_operands env base o l r)
        ≡ strict (w.apply o) (value_in w base row l) (value_in w base row r)
  unfolding swap_operands
  swap_operands-truth o l r =
      elim (Bool-cases (wants_swap base l r && not (env.commutator o == 0))) [
        | inl t ↦
            rw t (strict-swap o (value_in w base row l) (value_in w base row r) (ground arith))
        | inr f ↦ rw f refl
      ]

  -- What a comparison means: its operator between the cell and the right side.
  abbrev pub comparison_truth : (ℕ → ℕ → ℕ → Option Bool) → Comparison → Option Bool
  comparison_truth f c =
      strict (f c.opno) (row (w.column_name c.attno)) (value_in w base row c.right)

  pub base_comparison_parts :
      (o rel : ℕ) (attno : ℤ) (r : Node) (c : Comparison)
      → base_comparison base o (var rel attno) r ≡ some c
      → ((rel == base) ≡ true) × (c.opno ≡ o) × (c.attno ≡ attno) × (c.right ≡ r)
  unfolding base_comparison
  base_comparison_parts o rel attno r c e = ground arith

  pub base_comparison-truth :
      (f : ℕ → ℕ → ℕ → Option Bool) (o : ℕ) (l r : Node) (c : Comparison)
      → base_comparison base o l r ≡ some c
      → comparison_truth f c ≡ strict (f o) (value_in w base row l) (value_in w base row r)
  unfolding base_comparison value_in
  base_comparison-truth f o (var rel attno) r c e =
      let k = base_comparison_parts o rel attno r c e in rw (k.0, k.1, k.2, k.3) refl
  base_comparison-truth f o _ r c e = cc

  pub canonical_op_expr-truth :
      (o : ℕ) (args : Args) (c : Comparison)
      → BothNotCoerced (operands args)
      → canonical_op_expr env base o args ≡ some c
      → operator_truth w base row (w.apply o) (operands args) ≡ comparison_truth w.apply c
  unfolding canonical_op_expr operator_truth
  canonical_op_expr-truth o (arg l (arg r no_args)) c h e =
      let s = swap_operands env base o (unnest_clause l) (unnest_clause r) in
      sym (
        base_comparison-truth w.apply s.0 s.1.0 s.1.1 c e
        ∙ swap_operands-truth o (unnest_clause l) (unnest_clause r)
        ∙ rw (value_in-unnest l h.0, value_in-unnest r h.1) refl)
  canonical_op_expr-truth o _ c h e = cc

  pub canonical_scalar_array_op_expr-truth :
      (o : ℕ) (args : Args) (c : Comparison)
      → BothNotCoerced (operands args)
      → canonical_scalar_array_op_expr env base o args ≡ some c
      → operator_truth w base row (w.apply_array o true) (operands args)
        ≡ comparison_truth (λ p. w.apply_array p true) c
  unfolding canonical_scalar_array_op_expr operator_truth
  canonical_scalar_array_op_expr-truth o (arg l (arg r no_args)) c h e = sym (
      base_comparison-truth (λ p. w.apply_array p true) o (unnest_clause l) (unnest_clause r) c e
      ∙ rw (value_in-unnest l h.0, value_in-unnest r h.1) refl)
  canonical_scalar_array_op_expr-truth o _ c h e = cc
