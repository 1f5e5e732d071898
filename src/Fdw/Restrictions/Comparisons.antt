-- ===== src/Fdw/Restrictions/Comparisons.antt =====
-- The quals of comparisons keep the rows that the comparisons accept.
use steampipe_postgres_fdw.Prelude.{
  if◌then◌else◌, Bool-cases, ◌==◌, nat_eq, string_eq, Result, value, fail, value_injective, ℕ, ◌≡◌,
  refl, sym, ap, ◌∙◌, subst, ◌⊎◌, inl, inr, Bool, true, false, ◌||◌, Option, none, some, arith,
}
use steampipe_postgres_fdw.Prelude.Int.{pos, ◌-ℤ◌}
use steampipe_postgres_fdw.Proto.{QualValue, Qual}
use steampipe_postgres_fdw.Fdw.Restrictions.Nodes.{
  Environment, ConversionInfo, ConversionInfos, get, Node, const, param, op_expr, Args,
}
use steampipe_postgres_fdw.Fdw.Restrictions.Values.{
  ConversionError, get_qual_value, datum_to_qual_value, evaluated, not_null, invalid_oid,
}
use steampipe_postgres_fdw.Fdw.Restrictions.Defs.{
  Comparison, qual_from_op_expr, qual_from_scalar_op_expr, comparison_of_value, comparison_of_info,
  operands, canonical_op_expr, canonical_scalar_array_op_expr, comparison_qual, go_string,
}
use steampipe_postgres_fdw.Fdw.Restrictions.Meaning.{
  Row, World, Documented, NamesColumns, matches, cell_matches, keeps, value_in, operator_truth,
}
use steampipe_postgres_fdw.Fdw.Restrictions.Operands.{
  strict-true, keeps-cell, comparison_truth, canonical_op_expr-truth,
  canonical_scalar_array_op_expr-truth,
}
use steampipe_postgres_fdw.Fdw.Restrictions.Denoted.{Denotes}
use steampipe_postgres_fdw.Fdw.Restrictions.Converted.{datum_to_qual_value-Denotes}
use steampipe_postgres_fdw.Fdw.Restrictions.Supported.{
  operand_type, operand_datum, Typed, BothNotCoerced,
}

-- What a value that the code converts comes from.
abbrev pub Converted : Environment → Option ℕ → ℕ → ConversionInfo → Option QualValue → Type 0
Converted env o t ci v =
    ((o ≡ none) × (v ≡ none))
    ⊎ ((d : ℕ) × (qv : QualValue) × (o ≡ some d)
        × (v ≡ some qv)
        × (datum_to_qual_value env d t ci ≡ value qv))

pub not_null_parts :
    (r : Result ConversionError QualValue) (v : Option QualValue)
    → not_null r ≡ value v
    → (qv : QualValue) × (v ≡ some qv) × (r ≡ value qv)
unfolding not_null
not_null_parts (value qv) v e = (qv, sym (value_injective e), refl)
not_null_parts (fail x) v e = cc

pub evaluated-Converted :
    (env : Environment) (t : ℕ) (o : Option ℕ) (ci : ConversionInfo) (v : Option QualValue)
    → evaluated env t o ci ≡ value v
    → Converted env o (if t == invalid_oid then ci.atttypoid else t) ci v
unfolding evaluated
evaluated-Converted env t none ci v e = inl (refl, sym (value_injective e))
evaluated-Converted env t (some d) ci v e =
    let k =
      not_null_parts (datum_to_qual_value env d (if t == invalid_oid then ci.atttypoid else t) ci) v
        e in
    inr (d, k.0, refl, k.1, k.2)

module _ {env : Environment} (w : World env) (infos : ConversionInfos) (base : ℕ)
    (doc : Documented w base) (names : NamesColumns w infos) (row : Row) where
  pub get_qual_value-Converted :
      (n : Node) (ci : ConversionInfo) (v : Option QualValue)
      → env.volatile n ≡ false
      → env.refers n base ≡ false
      → get_qual_value env n ci ≡ value v
      → Converted env (value_in w base row n) (operand_type ci n) ci v
  unfolding get_qual_value value_in
  get_qual_value-Converted (const t d b) ci v f g e = evaluated-Converted env t _ ci v e
  get_qual_value-Converted (param t id) ci v f g e = evaluated-Converted env t _ ci v e
  get_qual_value-Converted (op_expr o fid t args) ci v f g e = elim (Bool-cases (fid == 3214)) [
    | inl y ↦ absurd (ground arith)
    | inr n ↦
        rw (doc.steady row (op_expr o fid t args) f g)
          (evaluated-Converted env t _ ci v (rw n at e))
  ]
  get_qual_value-Converted _ ci v f g e = cc

  value_in-operand_datum :
      (n : Node) (ci : ConversionInfo) (v : Option QualValue)
      → env.volatile n ≡ false
      → env.refers n base ≡ false
      → get_qual_value env n ci ≡ value v
      → value_in w base row n ≡ operand_datum env n
  unfolding get_qual_value value_in
  value_in-operand_datum (const t d b) ci v f g e = refl
  value_in-operand_datum (param t id) ci v f g e = refl
  value_in-operand_datum (op_expr o fid t args) ci v f g e =
      doc.steady row (op_expr o fid t args) f g
  value_in-operand_datum _ ci v f g e = cc

  pub value_parts :
      (c : Comparison) (ci : ConversionInfo) (q : Qual)
      (r : Result ConversionError (Option QualValue))
      → comparison_of_value env infos c ci r ≡ some q
      → (v : Option QualValue) × (r ≡ value v)
        × (q.field_name ≡ go_string ci.attrname)
        × (q.operator ≡ env.operator_name c.opno)
        × (q.value ≡ v)
  unfolding comparison_of_value
  value_parts c ci q (fail x) e = cc
  value_parts c ci q (value v) e = (v, refl, ground arith, ground arith, ground arith)

  pub info_parts :
      (c : Comparison) (q : Qual) (o : Option ConversionInfo)
      → comparison_of_info env infos c o ≡ some q
      → (ci : ConversionInfo) × (v : Option QualValue) × (o ≡ some ci)
        × (get_qual_value env c.right ci ≡ value v)
        × (q.field_name ≡ go_string ci.attrname)
        × (q.operator ≡ env.operator_name c.opno)
        × (q.value ≡ v)
  unfolding comparison_of_info
  info_parts c q none e = cc
  info_parts c q (some ci) e =
      let k = value_parts c ci q (get_qual_value env c.right ci) e in
      (ci, k.0, refl, k.1, k.2, k.3, k.4)

  pub comparison_qual_parts :
      (c : Comparison) (q : Qual)
      → comparison_qual env infos base (some c) ≡ some q
      → (ci : ConversionInfo) × (v : Option QualValue) × (env.volatile c.right ≡ false)
        × (env.refers c.right base ≡ false)
        × (get infos (c.attno -ℤ pos 1) ≡ some ci)
        × (get_qual_value env c.right ci ≡ value v)
        × (q.field_name ≡ go_string ci.attrname)
        × (q.operator ≡ env.operator_name c.opno)
        × (q.value ≡ v)
  unfolding comparison_qual
  comparison_qual_parts c q e =
      elim (Bool-cases (env.volatile c.right || env.refers c.right base)) [
        | inl t ↦ absurd (let bad : none ≡ some q = rw t at e in ground arith)
        | inr f ↦
            let k = info_parts c q (get infos (c.attno -ℤ pos 1)) (rw f at e) in
            (k.0, k.1, ground arith, ground arith, k.2, k.3, k.4, k.5, k.6)
      ]

  pub Converted-kept :
      (g : ℕ → ℕ → Option Bool) (c : Comparison) (a d : ℕ) (ci : ConversionInfo)
      (v : Option QualValue)
      → ((qv : QualValue)
          → datum_to_qual_value env d (operand_type ci c.right) ci ≡ value qv
          → g a d ≡ some true
          → matches w (env.operator_name c.opno) a qv ≡ true)
      → value_in w base row c.right ≡ some d
      → g a d ≡ some true
      → Converted env (value_in w base row c.right) (operand_type ci c.right) ci v
      → cell_matches w (env.operator_name c.opno) (some a) v ≡ true
  unfolding cell_matches
  Converted-kept g c a d ci v law e t (inl (nothing, missing)) = cc
  Converted-kept g c a d ci v law e t (inr (d', qv, e', ev, conv)) =
      let same : d' ≡ d = ground arith in
      rw ev (
        law qv
          (subst (λ x. datum_to_qual_value env x (operand_type ci c.right) ci ≡ value qv) same conv)
          t)

  -- The plugin keeps the rows that a comparison accepts.
  pub comparison_kept :
      (f : ℕ → ℕ → ℕ → Option Bool)
      → ((o a d t : ℕ) (ci : ConversionInfo) (v : QualValue)
          → w.takes o t ≡ true
          → Denotes env ci t d v
          → f o a d ≡ some true
          → matches w (env.operator_name o) a v ≡ true)
      → (c : Comparison) (q : Qual) → Typed w infos (some c)
      → comparison_qual env infos base (some c) ≡ some q
      → comparison_truth w infos base doc names row f c ≡ some true
      → keeps w row q ≡ true
  comparison_kept f law c q typed e t =
      let k = comparison_qual_parts c q e in
      let s =
        strict-true (f c.opno) (row (w.column_name c.attno)) (value_in w base row c.right) t in
      let field : q.field_name ≡ w.column_name c.attno =
        k.6 ∙ ap go_string (names c.attno k.0 k.4) in
      keeps-cell w infos base doc names row q (w.column_name c.attno) (env.operator_name c.opno) k.1
        (doc.not_null_test c.opno) (doc.not_not_null_test c.opno) (field, k.7, k.8)
      ∙ rw s.2 (
          Converted-kept (f c.opno) c s.0 s.1 k.0 k.1
            (λ v conv. law c.opno s.0 s.1 _ k.0 v (typed k.0 k.4).0 (
              datum_to_qual_value-Denotes env doc.takes_years doc.same_is_equal k.0 _ s.1 v
                ((typed k.0 k.4).1 s.1
                  (sym (value_in-operand_datum c.right k.0 k.1 k.2 k.3 k.5) ∙ s.3))
                conv))
            s.3 s.4 (get_qual_value-Converted c.right k.0 k.1 k.2 k.3 k.5))

  pub comparison_found :
      (o : Option Comparison) (q : Qual)
      → comparison_qual env infos base o ≡ some q
      → (c : Comparison) × (o ≡ some c)
  unfolding comparison_qual
  comparison_found none q e = cc
  comparison_found (some c) q e = (c, refl)

  pub op_expr_kept :
      (o : ℕ) (args : Args) (q : Qual)
      → BothNotCoerced (operands args)
      → Typed w infos (canonical_op_expr env base o args)
      → qual_from_op_expr env infos base o args ≡ some q
      → operator_truth w base row (w.apply o) (operands args) ≡ some true
      → keeps w row q ≡ true
  unfolding qual_from_op_expr
  op_expr_kept o args q h typed e t =
      let found = comparison_found (canonical_op_expr env base o args) q e in
      comparison_kept w.apply (λ p a d ty ci v. doc.converts p a d ty ci v) found.0 q
        (subst (Typed w infos) found.1 typed)
        (subst (λ c. comparison_qual env infos base c ≡ some q) found.1 e)
        (sym (canonical_op_expr-truth w infos base doc names row o args found.0 h found.1) ∙ t)

  pub scalar_array_kept :
      (o : ℕ) (args : Args) (q : Qual)
      → BothNotCoerced (operands args)
      → Typed w infos (canonical_scalar_array_op_expr env base o args)
      → qual_from_scalar_op_expr env infos base o args ≡ some q
      → operator_truth w base row (w.apply_array o true) (operands args) ≡ some true
      → keeps w row q ≡ true
  unfolding qual_from_scalar_op_expr
  scalar_array_kept o args q h typed e t =
      let found = comparison_found (canonical_scalar_array_op_expr env base o args) q e in
      comparison_kept (λ p. w.apply_array p true) (λ p a d ty ci v. doc.converts_any p a d ty ci v)
        found.0 q (subst (Typed w infos) found.1 typed)
        (subst (λ c. comparison_qual env infos base c ≡ some q) found.1 e)
        (sym (
            canonical_scalar_array_op_expr-truth w infos base doc names row o args found.0 h
              found.1)
          ∙ t)
