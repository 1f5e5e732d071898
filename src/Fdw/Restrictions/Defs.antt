-- ===== src/Fdw/Restrictions/Defs.antt =====
-- quals.go: from one restriction to a qual, and restrictionsToQuals; unnestClause,
-- swapOperandsAsNeeded and canonicalOpExpr of fdw/query.c. A nil qual is `none`.
use steampipe_postgres_fdw.Prelude.{
  if◌then◌else◌, ◌==◌, nat_eq, string_eq, Result, value, fail, ℕ, ◌+◌, String, Bool, true, false,
  not, ◌&&◌, ◌||◌, Option, none, some, List, [], ◌∷◌, ◌++◌,
}
use steampipe_postgres_fdw.Prelude.Int.{ℤ, pos, ltb_ℤ, ◌-ℤ◌}
use steampipe_postgres_fdw.Proto.{QualValue, bool_value, list_value, Qual}
use steampipe_postgres_fdw.Fdw.Restrictions.Nodes.{
  Environment, ConversionInfo, ConversionInfos, get, BoolOp, and_expr, or_expr, not_expr,
  BoolTestType, is_true, is_not_true, is_false, is_not_false, is_unknown, is_not_unknown, Node, var,
  const, param, op_expr, scalar_array_op_expr, null_test, boolean_test, bool_expr, relabel_type,
  array_coerce_expr, other_node, Args, no_args, arg,
}
use steampipe_postgres_fdw.Fdw.Restrictions.Values.{ConversionError, get_qual_value, to_list}

-- unnestClause
unfoldable pub unnest_clause : Node → Node
unnest_clause (relabel_type n) = n
unnest_clause (array_coerce_expr n) = n
unnest_clause (var rel attno) = var rel attno
unnest_clause (const t d b) = const t d b
unnest_clause (param t id) = param t id
unnest_clause (op_expr o f t args) = op_expr o f t args
unnest_clause (scalar_array_op_expr o u args) = scalar_array_op_expr o u args
unnest_clause (null_test b n) = null_test b n
unnest_clause (boolean_test t n) = boolean_test t n
unnest_clause (bool_expr op n args) = bool_expr op n args
unnest_clause (other_node tag) = other_node tag

-- The two arguments of a binary operator.
unfoldable pub operands : Args → Option (Node × Node)
operands (arg l (arg r no_args)) = some (l, r)
operands no_args = none
operands (arg l no_args) = none
operands (arg l (arg r (arg m args))) = none

-- Whether the left side does not belong to the relation and the right one does: any expression that
-- is not a Var counts as such a left side.
abbrev pub foreign_left : ℕ → Node → ℕ → Bool
foreign_left base (var rel attno) right_rel = not (rel == base) && right_rel == base
foreign_left base n right_rel = true

abbrev pub wants_swap : ℕ → Node → Node → Bool
wants_swap base l (var rel attno) = foreign_left base l rel
wants_swap base l r = false

abbrev pub one_argument : Args → Bool
one_argument no_args = true
one_argument (arg n args) = false

unfoldable pub is_var : Node → Bool
is_var (var rel attno) = true
is_var n = false

-- A comparison of an attribute of the relation, the left side, with the right side.
pub record Comparison : Type 0 where
  pub opno : ℕ
  pub attno : ℤ
  pub right : Node

-- The test that ends canonicalOpExpr and canonicalScalarArrayOpExpr.
unfoldable pub base_comparison : ℕ → ℕ → Node → Node → Option Comparison
base_comparison base opno (var rel attno) r =
    if rel == base && ltb_ℤ (pos 0) attno
    then some (record { opno = opno; attno = attno; right = r })
    else none
base_comparison base opno l r = none

abbrev pub true_value : Option QualValue
true_value = some (bool_value true)

module _ (env : Environment) where
  -- swapOperandsAsNeeded: an operator without a commutator is left as it is.
  unfoldable pub swap_operands : ℕ → ℕ → Node → Node → ℕ × (Node × Node)
  swap_operands base opno l r =
      if wants_swap base l r && not (env.commutator opno == 0)
      then (env.commutator opno, (r, l))
      else (opno, (l, r))

  unfoldable pub canonical_operands : ℕ → ℕ → Option (Node × Node) → Option Comparison
  unfolding swap_operands base_comparison
  canonical_operands base opno none = none
  canonical_operands base opno (some (l, r)) =
      let s = swap_operands base opno (unnest_clause l) (unnest_clause r) in
      base_comparison base s.0 s.1.0 s.1.1

  -- canonicalOpExpr
  unfoldable pub canonical_op_expr : ℕ → ℕ → Args → Option Comparison
  unfolding canonical_operands operands
  canonical_op_expr base opno args = canonical_operands base opno (operands args)

  unfoldable pub canonical_array_operands : ℕ → ℕ → Option (Node × Node) → Option Comparison
  unfolding base_comparison
  canonical_array_operands base opno none = none
  canonical_array_operands base opno (some (l, r)) =
      base_comparison base opno (unnest_clause l) (unnest_clause r)

  -- canonicalScalarArrayOpExpr
  unfoldable pub canonical_scalar_array_op_expr : ℕ → ℕ → Args → Option Comparison
  unfolding canonical_array_operands operands
  canonical_scalar_array_op_expr base opno args = canonical_array_operands base opno (operands args)

abbrev pub go_string : Option String → String
go_string (some s) = s
go_string none = ""

abbrev pub attribute_name : Option ConversionInfo → String
attribute_name (some ci) = go_string ci.attrname
attribute_name none = ""

-- The qual of a column, if there is one.
unfoldable pub column_qual : String → String → Option QualValue → Option Qual
column_qual column operator v =
    if column == ""
    then none
    else some (record { field_name = column; operator = operator; value = v })

-- The switch on the test; the default returns no qual.
unfoldable pub test_operator : BoolTestType → Option String
test_operator is_true = some "="
test_operator is_not_true = some "<>"
test_operator is_false = some "<>"
test_operator is_not_false = none
test_operator is_unknown = none
test_operator is_not_unknown = none

unfoldable pub tested_column : String → Option String → Option Qual
unfolding column_qual
tested_column column none = none
tested_column column (some operator) = column_qual column operator true_value

-- The head of an OR's quals, and whether each of them compares the same column by =.
unfoldable pub all_equal_on : String → List Qual → Bool
all_equal_on field [] = true
all_equal_on field (q ∷ qs) =
    let rest = all_equal_on field qs in
    if not (q.field_name == field) || not (q.operator == "=") then false else rest

abbrev pub values_of : List Qual → List (Option QualValue)
values_of [] = []
values_of (q ∷ qs) = q.value ∷ values_of qs

-- col=X OR col=Y becomes col IN (X, Y).
unfoldable pub in_qual : List Qual → Option Qual
unfolding all_equal_on to_list
in_qual [] = none
in_qual (q ∷ qs) =
    if all_equal_on q.field_name (q ∷ qs)
    then some (record {
      field_name = q.field_name;
      operator = "=";
      value = some (list_value (to_list (values_of (q ∷ qs))));
    })
    else none

unfoldable pub or_qual : Option (List Qual) → Option Qual
unfolding in_qual
or_qual none = none
or_qual (some qs) = in_qual qs

abbrev pub and_then : Option Qual → Option (List Qual) → Option (List Qual)
and_then none rest = none
and_then (some q) none = none
and_then (some q) (some qs) = some (q ∷ qs)

abbrev pub is_not_of_var : BoolOp → Node → Bool
is_not_of_var not_expr n = is_var n
is_not_of_var and_expr n = false
is_not_of_var or_expr n = false

-- The part of qualFromBoolExpr behind its first test. `members` are the quals of the arguments.
unfoldable pub or_branch : BoolOp → Option (List Qual) → Option Qual
unfolding or_qual
or_branch or_expr members = or_qual members
or_branch and_expr members = none
or_branch not_expr members = none

abbrev pub collect_qual : Option Qual → List Qual × ℕ → List Qual × ℕ
collect_qual (some q) acc = (acc.0 ++ q ∷ [], acc.1)
collect_qual none acc = (acc.0, acc.1 + 1)

module _ (env : Environment) (infos : ConversionInfos) where
  unfoldable pub comparison_of_value :
      Comparison → ConversionInfo → Result ConversionError (Option QualValue) → Option Qual
  comparison_of_value c ci (fail e) = none
  comparison_of_value c ci (value v) = some (record {
    field_name = go_string ci.attrname;
    operator = env.operator_name c.opno;
    value = v;
  })

  unfoldable pub comparison_of_info : Comparison → Option ConversionInfo → Option Qual
  unfolding comparison_of_value get_qual_value
  comparison_of_info c none = none
  comparison_of_info c (some ci) = comparison_of_value c ci (get_qual_value env c.right ci)

  -- qualFromOpExpr and qualFromScalarOpExpr, behind their canonical forms.
  unfoldable pub comparison_qual : ℕ → Option Comparison → Option Qual
  unfolding comparison_of_info get
  comparison_qual base none = none
  comparison_qual base (some c) =
      if env.volatile c.right || env.refers c.right base
      then none
      else comparison_of_info c (get infos (c.attno -ℤ pos 1))

  unfoldable pub qual_from_op_expr : ℕ → ℕ → Args → Option Qual
  unfolding comparison_qual canonical_op_expr
  qual_from_op_expr base opno args = comparison_qual base (canonical_op_expr env base opno args)

  unfoldable pub qual_from_scalar_op_expr : ℕ → ℕ → Args → Option Qual
  unfolding comparison_qual canonical_scalar_array_op_expr
  qual_from_scalar_op_expr base opno args =
      comparison_qual base (canonical_scalar_array_op_expr env base opno args)

  -- columnFromVar; "" is no column.
  unfoldable pub column_from_var : ℤ → String
  unfolding get
  column_from_var attno =
      if ltb_ℤ (attno -ℤ pos 1) (pos 0) then "" else attribute_name (get infos (attno -ℤ pos 1))

  unfoldable pub qual_from_var : ℤ → Option Qual
  unfolding column_from_var column_qual
  qual_from_var attno = column_qual (column_from_var attno) "=" true_value

  abbrev pub null_operator : Bool → String
  null_operator is_null = if is_null then env.is_null_operator else env.is_not_null_operator

  unfoldable pub qual_from_null_test : Bool → Node → Option Qual
  unfolding column_from_var column_qual
  qual_from_null_test is_null (var rel attno) =
      if ltb_ℤ attno (pos 1)
      then none
      else column_qual (column_from_var attno) (null_operator is_null) none
  qual_from_null_test is_null n = none

  unfoldable pub qual_from_boolean_test : BoolTestType → Node → Option Qual
  unfolding tested_column column_from_var test_operator
  qual_from_boolean_test test (var rel attno) =
      tested_column (column_from_var attno) (test_operator test)
  qual_from_boolean_test test n = none

  -- qualFromBoolExpr: one argument is taken for a Var, whatever it is.
  unfoldable pub bool_expr_qual : BoolOp → Node → Args → Option (List Qual) → Option Qual
  unfolding or_branch column_qual column_from_var is_var
  bool_expr_qual op n args members =
      if one_argument args || is_not_of_var op n
      then column_qual (column_from_var (env.as_attno n)) "<>" true_value
      else or_branch op members

  unfoldable mutual
    unfolding qual_from_op_expr qual_from_scalar_op_expr qual_from_var qual_from_null_test
        qual_from_boolean_test bool_expr_qual

    -- singleRestrictionToQual, of a scan of the relation `base`.
    pub single_restriction_to_qual : ℕ → Node → Option Qual
    single_restriction_to_qual base (op_expr opno opfuncid t args) =
        qual_from_op_expr base opno args
    single_restriction_to_qual base (var rel attno) = qual_from_var attno
    single_restriction_to_qual base (scalar_array_op_expr opno use_or args) =
        qual_from_scalar_op_expr base opno args
    single_restriction_to_qual base (null_test is_null n) = qual_from_null_test is_null n
    single_restriction_to_qual base (boolean_test test n) = qual_from_boolean_test test n
    single_restriction_to_qual base (bool_expr op n args) =
        bool_expr_qual op n args
          (and_then (single_restriction_to_qual base n) (or_members base args))
    single_restriction_to_qual base (const t d is_null) = none
    single_restriction_to_qual base (param t id) = none
    single_restriction_to_qual base (relabel_type n) = none
    single_restriction_to_qual base (array_coerce_expr n) = none
    single_restriction_to_qual base (other_node tag) = none

    -- The loop over the arguments of an OR: one that has no qual ends it.
    pub or_members : ℕ → Args → Option (List Qual)
    or_members base no_args = some []
    or_members base (arg n args) =
        and_then (single_restriction_to_qual base n) (or_members base args)

  unfoldable pub restrictions_loop : ℕ → List Node → List Qual × ℕ → List Qual × ℕ
  unfolding single_restriction_to_qual
  restrictions_loop base [] acc = acc
  restrictions_loop base (n ∷ ns) acc =
      restrictions_loop base ns (collect_qual (single_restriction_to_qual base n) acc)

  -- restrictionsToQuals: the quals, and how many restrictions have none.
  unfoldable pub restrictions_to_quals : ℕ → List Node → List Qual × ℕ
  unfolding restrictions_loop
  restrictions_to_quals base restrictions = restrictions_loop base restrictions ([], 0)
