-- ===== src/Fdw/Restrictions/Meaning.antt =====
-- What a restriction and a qual mean for one row: the SQL meaning of an expression, in three-valued
-- logic, and whether the plugin's filter keeps the row. quals.go computes neither; it promises that
-- a qual keeps each row that its restriction accepts.
use steampipe_postgres_fdw.Prelude.{
  if◌then◌else◌, ◌==◌, nat_eq, string_eq, ℕ, String, ◌≡◌, Bool, true, false, not, ◌||◌, Option,
  none, some, List, [], ◌∷◌,
}
use steampipe_postgres_fdw.Prelude.Int.{ℤ, pos, ◌-ℤ◌}
use steampipe_postgres_fdw.Proto.{
  QualValue, unset, string_value, int64_value, double_value, bool_value, inet_value, jsonb_value,
  timestamp_value, list_value, QualValueList, end, null, item, Qual,
}
use steampipe_postgres_fdw.Fdw.Restrictions.Nodes.{
  Environment, ConversionInfo, ConversionInfos, get, BoolOp, and_expr, or_expr, not_expr,
  BoolTestType, is_true, is_not_true, is_false, is_not_false, is_unknown, is_not_unknown, Node, var,
  const, param, op_expr, scalar_array_op_expr, null_test, boolean_test, bool_expr, relabel_type,
  array_coerce_expr, other_node, Args, no_args, arg,
}
use steampipe_postgres_fdw.Fdw.Restrictions.Times.{TakesYears}
use steampipe_postgres_fdw.Fdw.Restrictions.Elements.{SameIsEqual}
use steampipe_postgres_fdw.Fdw.Restrictions.Denoted.{Denotes}
use steampipe_postgres_fdw.Fdw.Restrictions.Defs.{operands}

-- A row of the relation: a datum for each column, or NULL.
abbrev pub Row : Type 0
Row = String → Option ℕ

-- What Postgres and the plugin do with values. `apply` is an operator on two values, and
-- `apply_array` one of = ANY and = ALL with its flag; both are strict. `holds` is the plugin's
-- comparison of a cell with a value, and `list_holds` with a list where the operator is not =.
pub record World (env : Environment) : Type 0 where
  pub column_name : ℤ → String
  pub outer : ℕ → ℤ → Option ℕ
  pub expression : Row → Node → Option ℕ
  pub other_truth : Row → Node → Option Bool
  pub is_true : ℕ → Bool
  pub apply : ℕ → ℕ → ℕ → Option Bool
  pub apply_array : ℕ → Bool → ℕ → ℕ → Option Bool
  pub holds : String → ℕ → QualValue → Bool
  pub list_holds : String → ℕ → QualValueList → Bool
  -- whether an operator takes a right operand of a type
  pub takes : ℕ → ℕ → Bool

abbrev pub and3 : Option Bool → Option Bool → Option Bool
and3 (some false) b = some false
and3 (some true) b = b
and3 none (some false) = some false
and3 none (some true) = none
and3 none none = none

abbrev pub or3 : Option Bool → Option Bool → Option Bool
or3 (some true) b = some true
or3 (some false) b = b
or3 none (some true) = some true
or3 none (some false) = none
or3 none none = none

abbrev pub not3 : Option Bool → Option Bool
not3 (some b) = some (not b)
not3 none = none

-- IS TRUE and the other tests are never NULL.
abbrev pub test_truth : BoolTestType → Option Bool → Bool
test_truth is_true (some b) = b
test_truth is_true none = false
test_truth is_not_true (some b) = not b
test_truth is_not_true none = true
test_truth is_false (some b) = not b
test_truth is_false none = false
test_truth is_not_false (some b) = b
test_truth is_not_false none = true
test_truth is_unknown (some b) = false
test_truth is_unknown none = true
test_truth is_not_unknown (some b) = true
test_truth is_not_unknown none = false

abbrev pub null_truth : Bool → Option ℕ → Bool
null_truth is_null none = is_null
null_truth is_null (some d) = not is_null

abbrev pub strict : (ℕ → ℕ → Option Bool) → Option ℕ → Option ℕ → Option Bool
strict f (some a) (some b) = f a b
strict f (some a) none = none
strict f none b = none

module _ {env : Environment} (w : World env) (base : ℕ) (row : Row) where
  -- The value of an operand in the row.
  unfoldable pub value_in : Node → Option ℕ
  value_in (var rel attno) = if rel == base then row (w.column_name attno) else w.outer rel attno
  value_in (const t d is_null) = if is_null then none else some d
  value_in (relabel_type n) = value_in n
  value_in (param t id) = env.eval (param t id)
  value_in (op_expr o f t args) = w.expression row (op_expr o f t args)
  value_in (scalar_array_op_expr o u args) = w.expression row (scalar_array_op_expr o u args)
  value_in (null_test b n) = w.expression row (null_test b n)
  value_in (boolean_test t n) = w.expression row (boolean_test t n)
  value_in (bool_expr op n args) = w.expression row (bool_expr op n args)
  value_in (array_coerce_expr n) = w.expression row (array_coerce_expr n)
  value_in (other_node tag) = w.expression row (other_node tag)

  unfoldable pub operator_truth : (ℕ → ℕ → Option Bool) → Option (Node × Node) → Option Bool
  unfolding value_in
  operator_truth f none = none
  operator_truth f (some (l, r)) = strict f (value_in l) (value_in r)

  abbrev pub boolean_value : Option ℕ → Option Bool
  boolean_value none = none
  boolean_value (some d) = some (w.is_true d)

  abbrev pub connect : BoolOp → Option Bool → Option Bool → Option Bool
  connect and_expr a b = and3 a b
  connect or_expr a b = or3 a b
  connect not_expr a b = not3 a

  abbrev pub neutral : BoolOp → Option Bool
  neutral and_expr = some true
  neutral or_expr = some false
  neutral not_expr = some true

  -- The truth of a restriction in the row.
  unfoldable mutual
    unfolding operator_truth operands value_in

    pub truth : Node → Option Bool
    truth (var rel attno) = boolean_value (value_in (var rel attno))
    truth (op_expr o f t args) = operator_truth (w.apply o) (operands args)
    truth (scalar_array_op_expr o u args) = operator_truth (w.apply_array o u) (operands args)
    truth (null_test is_null n) = some (null_truth is_null (value_in n))
    truth (boolean_test t n) = some (test_truth t (truth n))
    truth (bool_expr op n args) = connect op (truth n) (truths op args)
    truth (const t d is_null) = w.other_truth row (const t d is_null)
    truth (param t id) = w.other_truth row (param t id)
    truth (relabel_type n) = w.other_truth row (relabel_type n)
    truth (array_coerce_expr n) = w.other_truth row (array_coerce_expr n)
    truth (other_node tag) = w.other_truth row (other_node tag)

    pub truths : BoolOp → Args → Option Bool
    truths op no_args = neutral op
    truths op (arg n args) = connect op (truth n) (truths op args)

module _ {env : Environment} (w : World env) where
  -- A cell against the value of a qual: against a list, = is IN.
  unfoldable mutual
    pub matches : String → ℕ → QualValue → Bool
    matches operator a (list_value l) =
        if operator == "=" then any_matches a l else w.list_holds operator a l
    matches operator a unset = w.holds operator a unset
    matches operator a (string_value s) = w.holds operator a (string_value s)
    matches operator a (int64_value n) = w.holds operator a (int64_value n)
    matches operator a (double_value n) = w.holds operator a (double_value n)
    matches operator a (bool_value b) = w.holds operator a (bool_value b)
    matches operator a (inet_value m s c v) = w.holds operator a (inet_value m s c v)
    matches operator a (jsonb_value s) = w.holds operator a (jsonb_value s)
    matches operator a (timestamp_value s n) = w.holds operator a (timestamp_value s n)

    pub any_matches : ℕ → QualValueList → Bool
    any_matches a end = false
    any_matches a (null l) = any_matches a l
    any_matches a (item v l) = matches "=" a v || any_matches a l

  unfoldable pub cell_matches : String → Option ℕ → Option QualValue → Bool
  unfolding matches
  cell_matches operator none v = false
  cell_matches operator (some a) none = false
  cell_matches operator (some a) (some v) = matches operator a v

  -- Whether the plugin's filter keeps the row.
  unfoldable pub keeps : Row → Qual → Bool
  unfolding cell_matches
  keeps row q =
      if q.operator == env.is_null_operator
      then null_truth true (row q.field_name)
      else if q.operator == env.is_not_null_operator
      then null_truth false (row q.field_name)
      else cell_matches q.operator (row q.field_name) q.value

  unfoldable pub any_keeps : Row → List Qual → Bool
  unfolding keeps
  any_keeps row [] = false
  any_keeps row (q ∷ qs) = keeps row q || any_keeps row qs

-- What is documented of Postgres and of the plugin. An operator and its commutator agree with their
-- operands swapped; an expression that neither is volatile nor refers to the relation has in each
-- row the value with which the scan begins; no operator is called IS NULL or IS NOT NULL; the
-- plugin compares a Boolean column with true; and its comparison of a cell with a value that says
-- what a datum is, of a type that the operator takes, keeps the rows that the operator accepts.
-- TimestampProto takes the years 1 to 9999, and Equals of two values says that they are the same.
pub record Documented {env : Environment} (w : World env) (base : ℕ) : Type 0 where
  pub commutes :
      (o a b : ℕ) → (env.commutator o == 0) ≡ false → w.apply (env.commutator o) b a ≡ w.apply o a b
  pub steady :
      (row : Row) (n : Node)
      → env.volatile n ≡ false
      → env.refers n base ≡ false
      → w.expression row n ≡ env.eval n
  pub null_operators_differ : (env.is_not_null_operator == env.is_null_operator) ≡ false
  pub not_null_test : (o : ℕ) → (env.operator_name o == env.is_null_operator) ≡ false
  pub not_not_null_test : (o : ℕ) → (env.operator_name o == env.is_not_null_operator) ≡ false
  pub equals_no_null_test : ("=" == env.is_null_operator) ≡ false
  pub equals_no_not_null_test : ("=" == env.is_not_null_operator) ≡ false
  pub differs_no_null_test : ("<>" == env.is_null_operator) ≡ false
  pub differs_no_not_null_test : ("<>" == env.is_not_null_operator) ≡ false
  pub equals_true : (a : ℕ) → w.holds "=" a (bool_value true) ≡ w.is_true a
  pub differs_true : (a : ℕ) → w.holds "<>" a (bool_value true) ≡ not (w.is_true a)
  pub takes_years : TakesYears env.timestamp_proto
  pub same_is_equal : SameIsEqual env
  pub converts :
      (o a d t : ℕ) (ci : ConversionInfo) (v : QualValue)
      → w.takes o t ≡ true
      → Denotes env ci t d v
      → w.apply o a d ≡ some true
      → matches w (env.operator_name o) a v ≡ true
  pub converts_any :
      (o a d t : ℕ) (ci : ConversionInfo) (v : QualValue)
      → w.takes o t ≡ true
      → Denotes env ci t d v
      → w.apply_array o true a d ≡ some true
      → matches w (env.operator_name o) a v ≡ true

-- The conversion info of an attribute has the name of its column.
abbrev pub NamesColumns : {env : Environment} → World env → ConversionInfos → Type 0
NamesColumns w infos =
    (attno : ℤ) (ci : ConversionInfo)
    → get infos (attno -ℤ pos 1) ≡ some ci
    → ci.attrname ≡ some (w.column_name attno)
