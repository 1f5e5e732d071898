-- ===== src/Fdw/Restrictions/Sample.antt =====
-- A small world of integer columns, in which the translation of restrictions is tested.
use steampipe_postgres_fdw.Prelude.{
  if◌then◌else◌, ◌==◌, nat_eq, string_eq, ==_iff, value, ℕ, ◌<◌, String, ◌≡◌, refl, ap, subst, Bool,
  true, false, not, Option, none, some, [], ◌∷◌, arith,
}
use steampipe_postgres_fdw.Prelude.Int.{ℤ, pos, negsuc, int_beq, int_beq_iff, ◌-ℤ◌}
use steampipe_postgres_fdw.Proto.{QualValue, int64_value, bool_value}
use steampipe_postgres_fdw.Fdw.Restrictions.Nodes.{
  Environment, ConversionInfo, ConversionInfos, get, Node, var, TypeInfo,
}
use steampipe_postgres_fdw.Fdw.Restrictions.Times.{TakesYears}
use steampipe_postgres_fdw.Fdw.Restrictions.Denoted.{
  Denotes, text, inet_v4, inet_v6, date, timestamp, int2, int4, int8, float4, float8, boolean,
  jsonb, array, IsConvertible,
}
use steampipe_postgres_fdw.Fdw.Restrictions.Meaning.{World, Documented, NamesColumns, matches}

abbrev pub attno_of : Node → ℤ
attno_of (var rel attno) = attno
attno_of n = pos 0

-- The values that the tests compare are integers.
abbrev pub same_int : Option QualValue → QualValue → Bool
same_int (some (int64_value m)) (int64_value n) = int_beq m n
same_int o v = false

-- Type 1016 is the array of type 20, int8.
abbrev pub types : ℕ → Option TypeInfo
types t = if t == 1016 then some (record { typelem = 20; variable_length = true }) else none

abbrev pub ranks : ℕ → ℕ
ranks t = if t == 1016 then 1 else 0

pub types-ranks : (t : ℕ) (info : TypeInfo) → types t ≡ some info → ranks info.typelem < ranks t
types-ranks t info e = ground arith

-- Operator 410 is = of int8.
abbrev pub small : Environment
small = record {
  commutator = λ o. o;
  operator_name = λ o. "=";
  volatile = λ n. false;
  refers = λ n rel. false;
  eval = λ n. none;
  as_attno = attno_of;
  as_attno-var = λ rel attno. refl;
  text = λ d ci. "";
  inet = λ d. record { netmask_bits = pos 0; bytes = []; is_ipv6 = false };
  ipv6_string = λ b. "";
  ipv4_string = λ b. "";
  date = λ d. pos 0;
  timestamp = λ d. pos d;
  int16 = λ d. pos d;
  int32 = λ d. pos d;
  int64 = λ d. pos d;
  float4 = λ d. d;
  float8 = λ d. d;
  bool = λ d. d == 1;
  jsonb = λ d. "{}";
  cidr_string = λ s n. s;
  ipv6 = "IPv6";
  ipv4 = "IPv4";
  timestamp_proto = λ s n. value (s, n);
  type_info = types;
  array_elements = λ d. some 7 ∷ none ∷ some 8 ∷ some 7 ∷ [];
  rank = ranks;
  rank_falls = types-ranks;
  same_value = same_int;
  is_null_operator = "is null";
  is_not_null_operator = "is not null";
}

abbrev pub column : ℤ → String
column attno = if int_beq attno (pos 1) then "id" else "flag"

abbrev pub holds_int : String → ℕ → QualValue → Bool
holds_int operator a (bool_value b) = if operator == "=" then a == 1 else not (a == 1)
holds_int operator a (int64_value n) = int_beq (pos a) n
holds_int operator a v = false

abbrev pub world : World small
world = record {
  column_name = column;
  outer = λ rel attno. none;
  expression = λ row n. none;
  other_truth = λ row n. none;
  is_true = λ a. a == 1;
  apply = λ o a b. some (a == b);
  apply_array = λ o u a b. none;
  holds = holds_int;
  list_holds = λ operator a l. false;
  takes = λ o t. t == 20;
}

abbrev pub infos : ConversionInfos
infos = record {
  num_attrs = 2;
  cinfos = λ i.
      some
        (record { attrname = some (if int_beq i (pos 0) then "id" else "flag"); atttypoid = 20 });
}

-- Operators take operands of type 20 only, and compare them as numbers.
pub int_matches :
    (a t d : ℕ) (ci : ConversionInfo) (v : QualValue)
    → (t == 20) ≡ true
    → Denotes small ci t d v
    → some (a == d) ≡ some true
    → matches world "=" a v ≡ true
unfolding matches
int_matches a t d ci _ ty (int8 _ _ k) e = ground arith
int_matches a t d ci _ ty (text _ _ k) e = absurd (ground arith)
int_matches a t d ci _ ty (inet_v4 _ _ k n) e = absurd (ground arith)
int_matches a t d ci _ ty (inet_v6 _ _ k n) e = absurd (ground arith)
int_matches a t d ci _ ty (date _ _ i k n) e = absurd (ground arith)
int_matches a t d ci _ ty (timestamp _ _ i k n) e = absurd (ground arith)
int_matches a t d ci _ ty (int2 _ _ k) e = absurd (ground arith)
int_matches a t d ci _ ty (int4 _ _ k) e = absurd (ground arith)
int_matches a t d ci _ ty (float4 _ _ k) e = absurd (ground arith)
int_matches a t d ci _ ty (float8 _ _ k) e = absurd (ground arith)
int_matches a t d ci _ ty (boolean _ _ k) e = absurd (ground arith)
int_matches a t d ci _ ty (jsonb _ _ k) e = absurd (ground arith)
int_matches a t d ci _ ty (array _ _ info f vs k l den there back) e =
    absurd (
      let bad : types 20 ≡ some info = subst (λ x. types x ≡ some info) ((==_iff t 20).0 ty) k in
      cc)

pub same_int-equal : (o : Option QualValue) (v : QualValue) → same_int o v ≡ true → o ≡ some v
same_int-equal (some (int64_value m)) (int64_value n) e =
    ap (λ k. some (int64_value k)) ((int_beq_iff m n).0 e)
same_int-equal _ v e = cc

pub takes_all : TakesYears (λ s n. value (s, n))
takes_all s n low high small_n = refl

-- Every integer is convertible.
pub int8-IsConvertible : (d : ℕ) → IsConvertible small 1 20 d
unfolding IsConvertible
int8-IsConvertible d = (
  (λ e. absurd (omega (arith, e))),
  (λ k. absurd (ground arith)),
  (λ k. absurd (ground arith)),
  (λ e. absurd (omega (arith, e))),
  (λ info e n l. cc),
)

pub documented : Documented world 1
documented = record {
  commutes = λ o a b h. ground (arith, nat_eq.same_iff a b, nat_eq.same_iff b a);
  steady = λ row n v r. refl;
  null_operators_differ = refl;
  not_null_test = λ o. refl;
  not_not_null_test = λ o. refl;
  equals_no_null_test = refl;
  equals_no_not_null_test = refl;
  differs_no_null_test = refl;
  differs_no_not_null_test = refl;
  equals_true = λ a. refl;
  differs_true = λ a. refl;
  takes_years = takes_all;
  same_is_equal = same_int-equal;
  converts = λ o a d t ci v. int_matches a t d ci v;
  converts_any = λ o a d t ci v ty e f. cc;
}

pub column_shift : (attno : ℤ) → int_beq (attno -ℤ pos 1) (pos 0) ≡ int_beq attno (pos 1)
unfolding ◌-ℤ◌
column_shift (pos n) = ground arith
column_shift (negsuc n) = ground arith

pub names : NamesColumns world infos
unfolding get
names attno ci e = ground (arith, column_shift attno)
