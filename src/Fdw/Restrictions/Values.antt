-- ===== src/Fdw/Restrictions/Values.antt =====
-- quals.go: datumToQualValue, convertUnknown, datumArrayToQualValue and getQualValue.
use steampipe_postgres_fdw.Prelude.{
  if◌then◌else◌, take, ◌==◌, nat_eq, string_eq, Result, value, fail, ℕ, zero, suc, String, Bool,
  true, false, not, ◌&&◌, ◌||◌, Option, none, some, List, [], ◌∷◌, ◌++◌,
}
use steampipe_postgres_fdw.Proto.{
  QualValue, string_value, int64_value, double_value, bool_value, inet_value, jsonb_value,
  timestamp_value, list_value, unset, QualValueList, end, null, item,
}
use steampipe_postgres_fdw.Fdw.Restrictions.Nodes.{
  Environment, ConversionInfo, TypeInfo, Inet, Node, const, param, op_expr, var,
  scalar_array_op_expr, null_test, boolean_test, bool_expr, relabel_type, array_coerce_expr,
  other_node,
}
use steampipe_postgres_fdw.Fdw.Restrictions.Times.{Instant, pg_time_to_timestamp}

pub data ConversionError : Type 0 where
  unsupported_expression : ConversionError
  unsupported_function : ℕ → ConversionError
  lookup_failed : ℕ → ConversionError
  unknown_type : ℕ → ConversionError
  too_deep : ConversionError

-- The cases of the switch on the type, and the types that each one takes.
pub data TypeKind : Type 0 where
  text_kind inet_kind date_kind timestamp_kind int2_kind int4_kind int8_kind : TypeKind
  float4_kind float8_kind bool_kind jsonb_kind unknown_kind : TypeKind

unfoldable pub type_kind : ℕ → TypeKind
type_kind t =
    if t == 25 || t == 1043
    then text_kind
    else if t == 869 || t == 650
    then inet_kind
    else if t == 1082
    then date_kind
    else if t == 1114 || t == 1184
    then timestamp_kind
    else if t == 21
    then int2_kind
    else if t == 23
    then int4_kind
    else if t == 20
    then int8_kind
    else if t == 700
    then float4_kind
    else if t == 701
    then float8_kind
    else if t == 16
    then bool_kind
    else if t == 3802
    then jsonb_kind
    else unknown_kind

abbrev pub invalid_oid : ℕ
invalid_oid = 0

-- A list of values, where a nil entry is `none`, as the message holds it.
unfoldable pub to_list : List (Option QualValue) → QualValueList
to_list [] = end
to_list (none ∷ vs) = null (to_list vs)
to_list (some v ∷ vs) = item v (to_list vs)

-- The inner `err` hides the one that is returned: a time that fails leaves the value unset.
unfoldable pub time_or_unset : Result String Instant → QualValue
time_or_unset (value i) = timestamp_value i.0 i.1
time_or_unset (fail e) = unset

unfoldable pub is_array : TypeInfo → Bool
is_array info = not (info.typelem == 0) && info.variable_length

unfoldable pub list_of :
    Result ConversionError (List (Option QualValue)) → Result ConversionError QualValue
unfolding to_list
list_of (value vs) = value (list_value (to_list vs))
list_of (fail e) = fail e

abbrev pub or_convert :
    Option QualValue → Result ConversionError QualValue → Result ConversionError QualValue
or_convert (some v) r = value v
or_convert none r = r

unfoldable pub not_null :
    Result ConversionError QualValue → Result ConversionError (Option QualValue)
not_null (value v) = value (some v)
not_null (fail e) = fail e

abbrev pub const_value : ℕ → Bool → Option ℕ
const_value d is_null = if is_null then none else some d

abbrev pub on_value :
    {A B : Type 0}
    → Result ConversionError A
    → (A → Result ConversionError B)
    → Result ConversionError B
on_value (value a) f = f a
on_value (fail e) f = fail e

module _ (env : Environment) where
  -- qualValueArrayContainsValue
  unfoldable pub qual_value_array_contains_value : List (Option QualValue) → QualValue → Bool
  qual_value_array_contains_value [] v = false
  qual_value_array_contains_value (w ∷ ws) v =
      let rest = qual_value_array_contains_value ws v in if env.same_value w v then true else rest

  unfoldable pub inet_address : Inet → String
  inet_address i = if i.is_ipv6 then env.ipv6_string i.bytes else env.ipv4_string (take 4 i.bytes)

  unfoldable pub inet_qual_value : Inet → QualValue
  unfolding inet_address
  inet_qual_value i =
      inet_value i.netmask_bits (inet_address i) (env.cidr_string (inet_address i) i.netmask_bits)
        (if i.is_ipv6 then env.ipv6 else env.ipv4)

  -- The cases of the switch, without its default.
  unfoldable pub known_value : TypeKind → ℕ → ConversionInfo → Option QualValue
  unfolding inet_qual_value time_or_unset pg_time_to_timestamp
  known_value text_kind d ci = some (string_value (env.text d ci))
  known_value inet_kind d ci = some (if d == 0 then unset else inet_qual_value (env.inet d))
  known_value date_kind d ci =
      some (time_or_unset (pg_time_to_timestamp env.timestamp_proto (env.date d)))
  known_value timestamp_kind d ci =
      some (time_or_unset (pg_time_to_timestamp env.timestamp_proto (env.timestamp d)))
  known_value int2_kind d ci = some (int64_value (env.int16 d))
  known_value int4_kind d ci = some (int64_value (env.int32 d))
  known_value int8_kind d ci = some (int64_value (env.int64 d))
  known_value float4_kind d ci = some (double_value (env.float4 d))
  known_value float8_kind d ci = some (double_value (env.float8 d))
  known_value bool_kind d ci = some (bool_value (env.bool d))
  known_value jsonb_kind d ci = some (jsonb_value (if d == 0 then "0" else env.jsonb d))
  known_value unknown_kind d ci = none

  -- if !qualValueArrayContainsValue(…) { append }
  unfoldable pub append_new : List (Option QualValue) → QualValue → List (Option QualValue)
  unfolding qual_value_array_contains_value
  append_new vs v = if qual_value_array_contains_value vs v then vs else vs ++ some v ∷ []

  unfoldable pub appended :
      List (Option QualValue)
      → Result ConversionError QualValue
      → Result ConversionError (List (Option QualValue))
  unfolding append_new
  appended vs (fail e) = fail e
  appended vs (value v) = value (append_new vs v)

  -- The loop of datumArrayToQualValue. `convert` is datumToQualValue at the type of the elements.
  -- The type of the array is looked up in each round; convertUnknown has found it before.
  unfoldable pub array_values :
      (ℕ → Result ConversionError QualValue)
      → List (Option ℕ)
      → List (Option QualValue)
      → Result ConversionError (List (Option QualValue))
  unfolding appended
  array_values convert [] vs = value vs
  array_values convert (none ∷ es) vs = array_values convert es (vs ++ none ∷ [])
  array_values convert (some d ∷ es) vs =
      on_value (appended vs (convert d)) (λ ws. array_values convert es ws)

  -- datumArrayToQualValue
  unfoldable pub datum_array_to_qual_value :
      (ℕ → Result ConversionError QualValue) → ℕ → Result ConversionError QualValue
  unfolding array_values list_of
  datum_array_to_qual_value convert d =
      if d == 0
      then value (list_value end)
      else list_of (array_values convert (env.array_elements d) [])

  -- convertUnknown, behind its lookup. `convert` is datumToQualValue.
  unfoldable pub convert_unknown :
      (ℕ → ℕ → Result ConversionError QualValue)
      → ℕ
      → ℕ
      → Option TypeInfo
      → Result ConversionError QualValue
  unfolding datum_array_to_qual_value is_array
  convert_unknown convert d t none = fail (lookup_failed t)
  convert_unknown convert d t (some info) =
      if is_array info
      then datum_array_to_qual_value (convert info.typelem) d
      else fail (unknown_type t)

  -- datumToQualValue, on fuel for the nesting of array types.
  unfoldable pub convert_datum : ℕ → ConversionInfo → (t d : ℕ) → Result ConversionError QualValue
  unfolding known_value type_kind convert_unknown
  convert_datum zero ci t d = fail too_deep
  convert_datum (suc fuel) ci t d =
      or_convert (known_value (type_kind t) d ci)
        (convert_unknown (convert_datum fuel ci) d t (env.type_info t))

  unfoldable pub datum_to_qual_value : (d t : ℕ) → ConversionInfo → Result ConversionError QualValue
  unfolding convert_datum
  datum_to_qual_value d t ci = convert_datum (suc (env.rank t)) ci t d

  -- What getQualValue does behind its switch: a null has no value.
  unfoldable pub evaluated :
      ℕ → Option ℕ → ConversionInfo → Result ConversionError (Option QualValue)
  unfolding not_null datum_to_qual_value
  evaluated t none ci = value none
  evaluated t (some d) ci =
      not_null (datum_to_qual_value d (if t == invalid_oid then ci.atttypoid else t) ci)

  -- getQualValue. jsonb_array_elements crashes where it is evaluated, and is left out.
  unfoldable pub get_qual_value : Node → ConversionInfo → Result ConversionError (Option QualValue)
  unfolding evaluated
  get_qual_value (const t d is_null) ci = evaluated t (const_value d is_null) ci
  get_qual_value (param t id) ci = evaluated t (env.eval (param t id)) ci
  get_qual_value (op_expr opno opfuncid t args) ci =
      if opfuncid == 3214
      then fail (unsupported_function opfuncid)
      else evaluated t (env.eval (op_expr opno opfuncid t args)) ci
  get_qual_value (var rel attno) ci = fail unsupported_expression
  get_qual_value (scalar_array_op_expr opno use_or args) ci = fail unsupported_expression
  get_qual_value (null_test is_null n) ci = fail unsupported_expression
  get_qual_value (boolean_test test n) ci = fail unsupported_expression
  get_qual_value (bool_expr op n args) ci = fail unsupported_expression
  get_qual_value (relabel_type n) ci = fail unsupported_expression
  get_qual_value (array_coerce_expr n) ci = fail unsupported_expression
  get_qual_value (other_node tag) ci = fail unsupported_expression
