-- ===== src/Fdw/Restrictions/Tests.antt =====
-- Tests of the translation of restrictions, and its theorems applied in the small world.
use steampipe_postgres_fdw.Prelude.{
  if◌then◌else◌, Bool-cases, length, ◌==◌, nat_eq, string_eq, ==_iff, All, In, Result, value, ℕ,
  ◌+◌, ◌-◌, ◌^◌, String, ◌≡◌, refl, ap, subst, ◌↔◌, inl, inr, Bool, true, false, Option, none, some,
  List, [], ◌∷◌, arith,
}
use native.Mathlib.Decide.{ℕ_discrete}
use steampipe_postgres_fdw.Prelude.Int.{pos, negsuc, ◌-ℤ◌, ◌+ℤ◌}
use steampipe_postgres_fdw.Proto.{
  QualValue, int64_value, bool_value, list_value, end, null, item, Qual,
}
use steampipe_postgres_fdw.Fdw.Restrictions.Nodes.{
  Environment, or_expr, not_expr, is_not_true, Node, var, const, op_expr, null_test, boolean_test,
  bool_expr, no_args, arg,
}
use steampipe_postgres_fdw.Fdw.Restrictions.Times.{
  Instant, Fits, pg_time_to_timestamp, time_to_pg_time, pg_time_round_trip,
}
use steampipe_postgres_fdw.Fdw.Restrictions.Values.{
  ConversionError, datum_to_qual_value, array_values,
}
use steampipe_postgres_fdw.Fdw.Restrictions.Defs.{
  single_restriction_to_qual, restrictions_to_quals, in_qual, unnest_clause,
}
use steampipe_postgres_fdw.Fdw.Restrictions.Elements.{
  NoRepeats, TellsApart, IsElement, array_has_distinct_values,
}
use steampipe_postgres_fdw.Fdw.Restrictions.Meaning.{Row, keeps, any_keeps, truth}
use steampipe_postgres_fdw.Fdw.Restrictions.Members.{in_qual-any}
use steampipe_postgres_fdw.Fdw.Restrictions.Supported.{Supported}
use steampipe_postgres_fdw.Fdw.Restrictions.Counts.{scan_keeps_rows}
use steampipe_postgres_fdw.Fdw.Restrictions.Lost.{is_not_true_loses_nulls}
use steampipe_postgres_fdw.Fdw.Restrictions.Denoted.{IsConvertible, Denotes}
use steampipe_postgres_fdw.Fdw.Restrictions.Converted.{datum_to_qual_value-Denotes}
use steampipe_postgres_fdw.Fdw.Restrictions.Sample.{
  same_int-equal, takes_all, int8-IsConvertible, small, world, infos, documented, names,
}

-- id = 5 OR id = 6, and flag
abbrev id_is : ℕ → Node
id_is n = op_expr 410 467 16 (arg (var 1 (pos 1)) (arg (const 20 n false) no_args))

abbrev five_or_six : Node
five_or_six = bool_expr or_expr (id_is 5) (arg (id_is 6) no_args)

abbrev flag : Node
flag = var 1 (pos 2)

in_five_six :
    single_restriction_to_qual small infos 1 five_or_six
    ≡ some (record {
      field_name = "id";
      operator = "=";
      value = some (list_value (item (int64_value (pos 5)) (item (int64_value (pos 6)) end)));
    })
unfolding single_restriction_to_qual unnest_clause ◌-ℤ◌
in_five_six = refl

-- NOT of an expression is taken for NOT of a column.
not_of_or : single_restriction_to_qual small infos 1 (bool_expr not_expr five_or_six no_args) ≡ none
unfolding single_restriction_to_qual ◌-ℤ◌
not_of_or = refl

counts :
    restrictions_to_quals small infos 1 (flag ∷ const 16 1 false ∷ null_test true flag ∷ []) ≡ (
      record { field_name = "flag"; operator = "="; value = some (bool_value true) }
          ∷ record { field_name = "flag"; operator = "is null"; value = none }
          ∷ [],
      1,
    )
unfolding restrictions_to_quals ◌-ℤ◌
counts = refl

array_7_8 :
    datum_to_qual_value small 1 1016 (record { attrname = none; atttypoid = 0 })
    ≡ value (list_value (item (int64_value (pos 7)) (null (item (int64_value (pos 8)) end))))
unfolding datum_to_qual_value
array_7_8 = refl

-- 'infinity'::timestamp, the largest int64, becomes the microsecond before 2000.
infinity :
    pg_time_to_timestamp (λ s n. value (s, n)) (pos (2 ^ 63 - 1)) ≡ value (pos 946684799, 999999000)
unfolding pg_time_to_timestamp ◌+ℤ◌
infinity = refl

abbrev row : Row
row name = if name == "id" then some 6 else some 1

restrictions-Supported : All (Supported world infos 1) (five_or_six ∷ flag ∷ [])
unfolding Supported unnest_clause
restrictions-Supported = (
  (
    refl,
    ((tt, tt), λ ci e. (refl, λ d h. int8-IsConvertible d)),
    (((tt, tt), λ ci e. (refl, λ d h. int8-IsConvertible d)), tt),
  ),
  (refl, tt),
)

restrictions-truth : All (λ n. truth world 1 row n ≡ some true) (five_or_six ∷ flag ∷ [])
unfolding truth
restrictions-truth = (refl, (refl, tt))

scan_keeps_rows_example :
    All
      (λ q. keeps world row q ≡ true)
      (restrictions_to_quals small infos 1 (five_or_six ∷ flag ∷ [])).0
    × (length (restrictions_to_quals small infos 1 (five_or_six ∷ flag ∷ [])).0
          + (restrictions_to_quals small infos 1 (five_or_six ∷ flag ∷ [])).1
        ≡ 2)
scan_keeps_rows_example =
    scan_keeps_rows world infos 1 documented names row (five_or_six ∷ flag ∷ [])
      restrictions-Supported restrictions-truth

abbrev id_quals : List Qual
id_quals =
    record { field_name = "id"; operator = "="; value = some (int64_value (pos 5)) }
    ∷ record { field_name = "id"; operator = "="; value = some (int64_value (pos 6)) }
    ∷ []

abbrev id_in : Qual
id_in = record {
  field_name = "id";
  operator = "=";
  value = some (list_value (item (int64_value (pos 5)) (item (int64_value (pos 6)) end)));
}

in_id_quals : in_qual id_quals ≡ some id_in
unfolding in_qual
in_id_quals = refl

in_qual-any_example : keeps world row id_in ≡ any_keeps world row id_quals
in_qual-any_example = in_qual-any world 1 documented row id_quals id_in in_id_quals

abbrev flag_differs : Qual
flag_differs = record { field_name = "flag"; operator = "<>"; value = some (bool_value true) }

flag_not_true :
    single_restriction_to_qual small infos 1 (boolean_test is_not_true (var 1 (pos 2)))
    ≡ some flag_differs
unfolding single_restriction_to_qual ◌-ℤ◌
flag_not_true = refl

is_not_true_loses_nulls_example :
    (truth world 1 (λ name. none) (boolean_test is_not_true (var 1 (pos 2))) ≡ some true)
    × (keeps world (λ name. none) flag_differs ≡ false)
is_not_true_loses_nulls_example =
    is_not_true_loses_nulls world infos 1 documented names (λ name. none) (pos 2) flag_differs
      flag_not_true refl

pg_time_round_trip_example :
    (i : Instant) × (pg_time_to_timestamp (λ s n. value (s, n)) (negsuc 4) ≡ value i)
    × ((time_to_pg_time i ≡ negsuc 4) ↔ Fits (negsuc 4))
pg_time_round_trip_example = pg_time_round_trip (λ s n. value (s, n)) (negsuc 4) takes_all

String-discrete : Discrete String
String-discrete a b = elim (Bool-cases (a == b)) [
  | inl t ↦ yes ((==_iff a b).0 t)
  | inr f ↦ no (λ e. absurd (let t : (a == b) ≡ true = (==_iff a b).1 e in ground arith))
]

QualValue-discrete : Discrete QualValue
QualValue-discrete = hlevel (String-discrete, ℕ_discrete)

abbrev decided : {A : Type 0} → Dec A → Bool
decided (yes a) = true
decided (no n) = false

abbrev exact : Option QualValue → QualValue → Bool
exact none v = false
exact (some w) v = decided (QualValue-discrete w v)

decided_iff : {A : Type 0} (d : Dec A) → (decided d ≡ true) ↔ A
decided_iff (yes a) = ((λ e. a), λ x. refl)
decided_iff (no n) = ((λ e. cc), λ x. absurd (n x))

abbrev exact_env : Environment
exact_env = record small { same_value = exact }

exact-TellsApart : TellsApart exact_env
exact-TellsApart none v = ((λ e. cc), λ e. cc)
exact-TellsApart (some w) v =
    let d = decided_iff (QualValue-discrete w v) in ((λ e. ap some (d.0 e)), λ e. d.1 (cc))

abbrev int_of : ℕ → Result ConversionError QualValue
int_of d = value (int64_value (pos d))

abbrev seven_eight : List (Option QualValue)
seven_eight = some (int64_value (pos 7)) ∷ none ∷ some (int64_value (pos 8)) ∷ []

array_values_run :
    array_values exact_env int_of (some 7 ∷ none ∷ some 8 ∷ some 7 ∷ []) [] ≡ value seven_eight
unfolding array_values QualValue-discrete ℕ_discrete
array_values_run = refl

array_has_distinct_values_example :
    NoRepeats seven_eight
    × (In (some (int64_value (pos 8))) seven_eight
        ↔ IsElement int_of (some 7 ∷ none ∷ some 8 ∷ some 7 ∷ []) (int64_value (pos 8)))
array_has_distinct_values_example =
    array_has_distinct_values exact_env int_of (some 7 ∷ none ∷ some 8 ∷ some 7 ∷ []) seven_eight
      (int64_value (pos 8)) exact-TellsApart array_values_run

array-IsConvertible : IsConvertible small 2 1016 1
unfolding IsConvertible
array-IsConvertible = (
  (λ e. absurd (omega (arith, e))),
  (λ k. absurd (ground arith)),
  (λ k. absurd (ground arith)),
  (λ e. absurd (omega (arith, e))),
  (λ info e n l. (
    refl,
    λ x m.
        subst (λ t. IsConvertible small 1 t x) (let same : 20 ≡ info.typelem = ground arith in same)
          (int8-IsConvertible x),
  )),
)

datum_to_qual_value-Denotes_example :
    Denotes small
      (record { attrname = none; atttypoid = 0 })
      1016
      1
      (list_value (item (int64_value (pos 7)) (null (item (int64_value (pos 8)) end))))
datum_to_qual_value-Denotes_example =
    datum_to_qual_value-Denotes small takes_all same_int-equal
      (record { attrname = none; atttypoid = 0 }) 1016 1
      (list_value (item (int64_value (pos 7)) (null (item (int64_value (pos 8)) end))))
      array-IsConvertible array_7_8
