-- ===== src/Fdw/Restrictions/Nodes.antt =====
-- The expression nodes of Postgres that quals.go reads, the conversion infos of
-- conversion_infos.go, and what the code asks of Postgres and of the plugin SDK.
use steampipe_postgres_fdw.Prelude.{
  if◌then◌else◌, nat_eq, string_eq, Result, ℕ, ◌<◌, String, ◌≡◌, Bool, Option, none, some, List,
}
use steampipe_postgres_fdw.Prelude.Int.{ℤ, pos, ltb_ℤ}
use steampipe_postgres_fdw.Proto.{QualValue}

-- A pointer or a machine word, as Postgres passes values.
abbrev pub Datum : Type 0
Datum = ℕ

abbrev pub Oid : Type 0
Oid = ℕ

pub data BoolOp : Type 0 where
  and_expr or_expr not_expr : BoolOp

pub data BoolTestType : Type 0 where
  is_true is_not_true is_false is_not_false is_unknown is_not_unknown : BoolTestType

-- An attribute number is below 1 for a system column and for the whole row. A BoolExpr has at least
-- one argument.
mutual
  pub data Node : Type 0 where
    var : (rel : ℕ) (attno : ℤ) → Node
    const : (type : ℕ) (datum : ℕ) (is_null : Bool) → Node
    param : (type : ℕ) (id : ℕ) → Node
    op_expr : (opno opfuncid opresulttype : ℕ) → Args → Node
    scalar_array_op_expr : (opno : ℕ) (use_or : Bool) → Args → Node
    null_test : (is_null : Bool) → Node → Node
    boolean_test : BoolTestType → Node → Node
    bool_expr : BoolOp → Node → Args → Node
    relabel_type : Node → Node
    array_coerce_expr : Node → Node
    other_node : (tag : ℕ) → Node

  pub data Args : Type 0 where
    no_args : Args
    arg : Node → Args → Args

-- C.ConversionInfo, with the fields that quals.go reads.
pub record ConversionInfo : Type 0 where
  pub attrname : Option String
  pub atttypoid : ℕ

-- conversionInfos: the array in C, as the memory behind its pointer, and its length.
pub record ConversionInfos : Type 0 where
  pub num_attrs : ℕ
  pub cinfos : ℤ → Option ConversionInfo

-- get: the upper bound is tested, the lower one is not.
unfoldable pub get : ConversionInfos → ℤ → Option ConversionInfo
get infos idx = if ltb_ℤ idx (pos infos.num_attrs) then infos.cinfos idx else none

-- The row of pg_type: the type of the elements, 0 if it has none, and whether typlen is -1.
pub record TypeInfo : Type 0 where
  pub typelem : ℕ
  pub variable_length : Bool

-- The value of an inet: its bits, its 16 bytes, and whether it is an IPv6 address.
pub record Inet : Type 0 where
  pub netmask_bits : ℤ
  pub bytes : List ℕ
  pub is_ipv6 : Bool

-- What the code asks of Postgres, of the SDK and of the packages that write values as text.
-- `as_attno` is the attribute number that is read where a node is cast to a Var.
-- `rank` orders types by nesting: the elements of an array are of a lower rank.
pub record Environment : Type 0 where
  pub commutator : ℕ → ℕ
  pub operator_name : ℕ → String
  pub volatile : Node → Bool
  pub refers : Node → ℕ → Bool
  pub eval : Node → Option ℕ
  pub as_attno : Node → ℤ
  pub as_attno-var : (rel : ℕ) (attno : ℤ) → as_attno (var rel attno) ≡ attno
  pub text : ℕ → ConversionInfo → String
  pub inet : ℕ → Inet
  pub ipv6_string : List ℕ → String
  pub ipv4_string : List ℕ → String
  pub date : ℕ → ℤ
  pub timestamp : ℕ → ℤ
  pub int16 : ℕ → ℤ
  pub int32 : ℕ → ℤ
  pub int64 : ℕ → ℤ
  pub float4 : ℕ → ℕ
  pub float8 : ℕ → ℕ
  pub bool : ℕ → Bool
  pub jsonb : ℕ → String
  pub cidr_string : String → ℤ → String
  pub ipv6 : String
  pub ipv4 : String
  pub timestamp_proto : ℤ → ℕ → Result String (ℤ × ℕ)
  pub type_info : ℕ → Option TypeInfo
  pub array_elements : ℕ → List (Option ℕ)
  pub rank : ℕ → ℕ
  pub rank_falls : (t : ℕ) (info : TypeInfo) → type_info t ≡ some info → rank info.typelem < rank t
  pub same_value : Option QualValue → QualValue → Bool
  pub is_null_operator : String
  pub is_not_null_operator : String
