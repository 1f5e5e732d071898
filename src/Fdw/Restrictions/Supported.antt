-- ===== src/Fdw/Restrictions/Supported.antt =====
-- The restrictions whose translation by quals.go respects their meaning.
use steampipe_postgres_fdw.Prelude.{
  if◌then◌else◌, ◌==◌, nat_eq, string_eq, ℕ, suc, ◌≡◌, true, false, Option, none, some,
}
use steampipe_postgres_fdw.Prelude.Int.{pos, ◌-ℤ◌}
use steampipe_postgres_fdw.Fdw.Restrictions.Nodes.{
  Environment, ConversionInfo, ConversionInfos, get, and_expr, or_expr, not_expr, BoolTestType,
  is_not_true, Node, var, const, param, op_expr, scalar_array_op_expr, null_test, boolean_test,
  bool_expr, relabel_type, array_coerce_expr, other_node, Args, no_args, arg,
}
use steampipe_postgres_fdw.Fdw.Restrictions.Values.{invalid_oid}
use steampipe_postgres_fdw.Fdw.Restrictions.Denoted.{IsConvertible}
use steampipe_postgres_fdw.Fdw.Restrictions.Defs.{
  Comparison, operands, canonical_op_expr, canonical_scalar_array_op_expr, one_argument,
}
use steampipe_postgres_fdw.Fdw.Restrictions.Meaning.{World}

-- The type by which an operand is converted.
abbrev pub operand_type : ConversionInfo → Node → ℕ
operand_type ci (const t d is_null) = if t == invalid_oid then ci.atttypoid else t
operand_type ci (param t id) = if t == invalid_oid then ci.atttypoid else t
operand_type ci (op_expr o f t args) = if t == invalid_oid then ci.atttypoid else t
operand_type ci n = 0

-- The datum of an operand, where it does not depend on the row.
abbrev pub operand_datum : Environment → Node → Option ℕ
operand_datum env (const t d is_null) = if is_null then none else some d
operand_datum env (param t id) = env.eval (param t id)
operand_datum env (op_expr o f t args) = env.eval (op_expr o f t args)
operand_datum env n = none

-- The operand of a comparison has a type that its operator takes, and its datum is convertible.
abbrev pub Typed : {env : Environment} → World env → ConversionInfos → Option Comparison → Type 0
Typed w infos none = Unit
Typed {env} w infos (some c) =
    (ci : ConversionInfo)
    → get infos (c.attno -ℤ pos 1) ≡ some ci
    → (w.takes c.opno (operand_type ci c.right) ≡ true)
      × ((d : ℕ)
          → operand_datum env c.right ≡ some d
          → IsConvertible env (suc (env.rank (operand_type ci c.right))) (operand_type ci c.right)
              d)

abbrev pub NotCoerced : Node → Type 0
NotCoerced (array_coerce_expr n) = ⊥
NotCoerced n = Unit

abbrev pub BothNotCoerced : Option (Node × Node) → Type 0
BothNotCoerced none = Unit
BothNotCoerced (some (l, r)) = NotCoerced l × NotCoerced r

abbrev pub OfBase : ℕ → Node → Type 0
OfBase base (var rel attno) = (rel == base) ≡ true
OfBase base n = Unit

abbrev pub IsBaseVar : ℕ → Node → Type 0
IsBaseVar base (var rel attno) = (rel == base) ≡ true
IsBaseVar base n = ⊥

abbrev pub Faithful : BoolTestType → Type 0
Faithful is_not_true = ⊥
Faithful t = Unit

-- Left out are: = ALL, which is taken for = ANY; IS NOT TRUE; NOT of anything but a column; the
-- coercion of an array, whose value is converted as if it were not coerced; and a comparison with a
-- date or timestamp that does not fit.
module _ {env : Environment} (w : World env) (infos : ConversionInfos) (base : ℕ) where
  unfoldable mutual
    unfolding canonical_op_expr canonical_scalar_array_op_expr operands

    pub Supported : Node → Type 0
    Supported (var rel attno) = (rel == base) ≡ true
    Supported (op_expr o f t args) =
        BothNotCoerced (operands args) × Typed w infos (canonical_op_expr env base o args)
    Supported (scalar_array_op_expr o use_or args) =
        (use_or ≡ true)
        × BothNotCoerced (operands args)
        × Typed w infos (canonical_scalar_array_op_expr env base o args)
    Supported (null_test is_null n) = OfBase base n
    Supported (boolean_test t n) = Faithful t × OfBase base n
    Supported (bool_expr not_expr n args) = IsBaseVar base n
    Supported (bool_expr and_expr n args) = one_argument args ≡ false
    Supported (bool_expr or_expr n args) =
        (one_argument args ≡ false) × Supported n × AllSupported args
    Supported (const t d is_null) = Unit
    Supported (param t id) = Unit
    Supported (relabel_type n) = Unit
    Supported (array_coerce_expr n) = Unit
    Supported (other_node tag) = Unit

    pub AllSupported : Args → Type 0
    AllSupported no_args = Unit
    AllSupported (arg n args) = Supported n × AllSupported args
