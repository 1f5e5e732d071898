-- ===== src/Fdw/Restrictions/Converted.antt =====
-- datumToQualValue comes to a value that says what the datum is.
use steampipe_postgres_fdw.Prelude.{
  if◌then◌else◌, Bool-cases, ◌==◌, nat_eq, string_eq, ==_iff, In, Result, value, fail,
  value_injective, ℕ, zero, suc, ◌≡◌, refl, sym, ap, ◌∙◌, subst, ◌↔◌, ◌⊎◌, inl, inr, Bool, true,
  false, ◌||◌, Option, none, some, List, [],
}
use steampipe_postgres_fdw.Prelude.Int.{ℤ}
use steampipe_postgres_fdw.Proto.{QualValue, jsonb_value, timestamp_value, list_value, unset}
use steampipe_postgres_fdw.Fdw.Restrictions.Nodes.{Environment, ConversionInfo, TypeInfo}
use steampipe_postgres_fdw.Fdw.Restrictions.Times.{
  Instant, Fits, TakesYears, pg_time_to_timestamp-value, duration_of-exact, duration_of,
  instant_after, nanoseconds_after-instant_after, pg_time_to_timestamp,
}
use steampipe_postgres_fdw.Fdw.Restrictions.Values.{
  ConversionError, unknown_type, TypeKind, text_kind, inet_kind, date_kind, timestamp_kind,
  int2_kind, int4_kind, int8_kind, float4_kind, float8_kind, bool_kind, jsonb_kind, unknown_kind,
  type_kind, to_list, time_or_unset, is_array, list_of, or_convert, inet_qual_value, inet_address,
  known_value, array_values, datum_array_to_qual_value, convert_unknown, convert_datum,
  datum_to_qual_value,
}
use steampipe_postgres_fdw.Fdw.Restrictions.Elements.{
  SameIsEqual, IsElement, array_values-In, array_values-converts,
}
use steampipe_postgres_fdw.Fdw.Restrictions.Denoted.{
  IsText, IsInet, IsTimestamp, IsAt, Denotes, text, inet_v4, inet_v6, date, timestamp, int2, int4,
  int8, float4, float8, boolean, jsonb, array, IsConvertible,
}

some_injective : {A : Type 0} {x y : A} → some x ≡ some y → x ≡ y
some_injective h = cc

-- The types of a case of the switch.
OfKind : ℕ → TypeKind → Type 0
OfKind t text_kind = IsText t
OfKind t inet_kind = IsInet t
OfKind t date_kind = t ≡ 1082
OfKind t timestamp_kind = IsTimestamp t
OfKind t int2_kind = t ≡ 21
OfKind t int4_kind = t ≡ 23
OfKind t int8_kind = t ≡ 20
OfKind t float4_kind = t ≡ 700
OfKind t float8_kind = t ≡ 701
OfKind t bool_kind = t ≡ 16
OfKind t jsonb_kind = t ≡ 3802
OfKind t unknown_kind = Unit

next_case :
    (t : ℕ) (b : Bool) (k rest : TypeKind)
    → (b ≡ true → OfKind t k)
    → OfKind t rest
    → OfKind t (if b then k else rest)
next_case t true k rest f r = f refl
next_case t false k rest f r = r

one_of : (t m n : ℕ) → (t == m || t == n) ≡ true → (t ≡ m) ⊎ (t ≡ n)
one_of t m n e = elim (Bool-cases (t == m)) [
  | inl y ↦ inl ((==_iff t m).0 y)
  | inr f ↦ inr ((==_iff t n).0 (rw f at e))
]

type_kind-OfKind : (t : ℕ) → OfKind t (type_kind t)
unfolding type_kind OfKind
type_kind-OfKind t = next_case t (t == 25 || t == 1043) text_kind _ (one_of t 25 1043) (
    next_case t (t == 869 || t == 650) inet_kind _ (one_of t 869 650) (
      next_case t (t == 1082) date_kind _ (==_iff t 1082).0 (
        next_case t (t == 1114 || t == 1184) timestamp_kind _ (one_of t 1114 1184) (
          next_case t (t == 21) int2_kind _ (==_iff t 21).0 (
            next_case t (t == 23) int4_kind _ (==_iff t 23).0 (
              next_case t (t == 20) int8_kind _ (==_iff t 20).0 (
                next_case t (t == 700) float4_kind _ (==_iff t 700).0 (
                  next_case t (t == 701) float8_kind _ (==_iff t 701).0 (
                    next_case t (t == 16) bool_kind _ (==_iff t 16).0 (
                      next_case t (t == 3802) jsonb_kind unknown_kind (==_iff t 3802).0 tt))))))))))

module _ (env : Environment) (years : TakesYears env.timestamp_proto) where
  -- A time that fits becomes the exact instant.
  time_value :
      (us : ℤ)
      → Fits us
      → (i : Instant) × IsAt i us
        × (time_or_unset (pg_time_to_timestamp env.timestamp_proto us) ≡ timestamp_value i.0 i.1)
  unfolding time_or_unset
  time_value us h = (
    instant_after (duration_of us),
    nanoseconds_after-instant_after (duration_of us) ∙ duration_of-exact us h,
    ap time_or_unset (pg_time_to_timestamp-value env.timestamp_proto us years),
  )

  inet_denoted :
      (ci : ConversionInfo) (t d : ℕ)
      → IsInet t
      → Denotes env ci t d (inet_qual_value env (env.inet d))
  unfolding inet_qual_value inet_address
  inet_denoted ci t d h = elim (Bool-cases ((env.inet d).is_ipv6)) [
    | inl y ↦ rw y (inet_v6 t d h y)
    | inr n ↦ rw n (inet_v4 t d h n)
  ]

  known-Denotes :
      (k : TypeKind) (depth : ℕ) (ci : ConversionInfo) (t d : ℕ) (v : QualValue)
      → OfKind t k
      → IsConvertible env (suc depth) t d
      → known_value env k d ci ≡ some v
      → Denotes env ci t d v
  unfolding known_value OfKind IsConvertible
  known-Denotes text_kind depth ci t d v k c e =
      subst (Denotes env ci t d) (some_injective e) (text t d k)
  known-Denotes inet_kind depth ci t d v k c e =
      subst (Denotes env ci t d)
        (some_injective (
          let e' : some (if false then unset else inet_qual_value env (env.inet d)) ≡ some v =
            rw (c.2 k) at e in
          e'))
        (inet_denoted ci t d k)
  known-Denotes date_kind depth ci t d v k c e =
      let i = time_value (env.date d) (c.0 k) in
      subst (Denotes env ci t d) (sym i.2 ∙ some_injective e) (date t d i.0 k i.1)
  known-Denotes timestamp_kind depth ci t d v k c e =
      let i = time_value (env.timestamp d) (c.1 k) in
      subst (Denotes env ci t d) (sym i.2 ∙ some_injective e) (timestamp t d i.0 k i.1)
  known-Denotes int2_kind depth ci t d v k c e =
      subst (Denotes env ci t d) (some_injective e) (int2 t d k)
  known-Denotes int4_kind depth ci t d v k c e =
      subst (Denotes env ci t d) (some_injective e) (int4 t d k)
  known-Denotes int8_kind depth ci t d v k c e =
      subst (Denotes env ci t d) (some_injective e) (int8 t d k)
  known-Denotes float4_kind depth ci t d v k c e =
      subst (Denotes env ci t d) (some_injective e) (float4 t d k)
  known-Denotes float8_kind depth ci t d v k c e =
      subst (Denotes env ci t d) (some_injective e) (float8 t d k)
  known-Denotes bool_kind depth ci t d v k c e =
      subst (Denotes env ci t d) (some_injective e) (boolean t d k)
  known-Denotes jsonb_kind depth ci t d v k c e =
      subst (Denotes env ci t d)
        (some_injective (
          let e' : some (jsonb_value (if false then "0" else env.jsonb d)) ≡ some v =
            rw (c.3 k) at e in
          e'))
        (jsonb t d k)
  known-Denotes unknown_kind depth ci t d v k c e = cc

  list_parts :
      (r : Result ConversionError (List (Option QualValue))) (v : QualValue)
      → list_of r ≡ value v
      → (vs : List (Option QualValue)) × (r ≡ value vs) × (list_value (to_list vs) ≡ v)
  unfolding list_of
  list_parts (value vs) v e = (vs, refl, value_injective e)
  list_parts (fail x) v e = cc

  array_parts :
      (convert : ℕ → Result ConversionError QualValue) (d : ℕ) (v : QualValue)
      → (d == 0) ≡ false
      → datum_array_to_qual_value env convert d ≡ value v
      → (vs : List (Option QualValue)) × (array_values env convert (env.array_elements d) []
          ≡ value vs)
        × (list_value (to_list vs) ≡ v)
  unfolding datum_array_to_qual_value
  array_parts convert d v h e = list_parts _ v (rw h at e)

  unknown_parts :
      (convert : ℕ → ℕ → Result ConversionError QualValue) (d t : ℕ) (o : Option TypeInfo)
      (v : QualValue)
      → convert_unknown env convert d t o ≡ value v
      → (info : TypeInfo) × (o ≡ some info)
        × ((info.typelem == 0) ≡ false)
        × (info.variable_length ≡ true)
        × (datum_array_to_qual_value env (convert info.typelem) d ≡ value v)
  unfolding convert_unknown is_array
  unknown_parts convert d t none v e = cc
  unknown_parts convert d t (some info) v e = elim (Bool-cases (info.typelem == 0)) [
    | inl y ↦ absurd (let bad : fail (unknown_type t) ≡ value v = rw y at e in cc)
    | inr n ↦ elim (Bool-cases info.variable_length) [
      | inl l ↦ (info, refl, n, l, rw (n, l) at e)
      | inr f ↦ absurd (let bad : fail (unknown_type t) ≡ value v = rw (n, f) at e in cc)
    ]
  ]

  abbrev or_unset : Result ConversionError QualValue → QualValue
  or_unset (value v) = v
  or_unset (fail e) = unset

  module _ (sound : SameIsEqual env) (ci : ConversionInfo) where
    -- Conversion of the elements of arrays of one depth less.
    abbrev Converts : ℕ → Type 0
    Converts depth =
        (t d : ℕ) (v : QualValue)
        → IsConvertible env depth t d
        → convert_datum env depth ci t d ≡ value v
        → Denotes env ci t d v

    array-Denotes :
        (depth t d : ℕ) (v : QualValue)
        → Converts depth
        → IsConvertible env (suc depth) t d
        → convert_unknown env (convert_datum env depth ci) d t (env.type_info t) ≡ value v
        → Denotes env ci t d v
    unfolding IsConvertible
    array-Denotes depth t d v ih c e =
        let (info, typed, n, l, got) =
          unknown_parts (convert_datum env depth ci) d t (env.type_info t) v e in
        let convertible = c.4 info typed n l in
        let convert = convert_datum env depth ci info.typelem in
        let (vs, run, is_v) = array_parts convert d v convertible.0 got in
        let es = env.array_elements d in
        let is_value : (x : ℕ) → In (some x) es → convert x ≡ value (or_unset (convert x)) = λ x m.
          let k = array_values-converts env sound convert es [] vs x run m in
          k.1 ∙ ap (λ r. value (or_unset r)) (sym k.1) in
        let members : (u : QualValue) → In (some u) vs ↔ (⊥ ⊎ IsElement convert es u) =
          λ u. array_values-In env sound convert u es [] vs run in
        subst (Denotes env ci t d) is_v (
          array t d info (λ x. or_unset (convert x)) vs typed l
            (λ x m. ih info.typelem x (or_unset (convert x)) (convertible.1 x m) (is_value x m))
            (λ x m. (members (or_unset (convert x))).1 (inr (x, m, is_value x m)))
            (λ u m. from_element convert u es ((members u).0 m)))
      where
        from_element :
            (convert : ℕ → Result ConversionError QualValue) (u : QualValue) (es : List (Option ℕ))
            → ⊥ ⊎ IsElement convert es u
            → (x : ℕ) × In (some x) es × (or_unset (convert x) ≡ u)
        from_element convert u es (inl b) = elim b [ ]
        from_element convert u es (inr (x, m, k)) = (x, m, ap or_unset k)

    convert_datum-Denotes : (depth : ℕ) → Converts depth
    unfolding convert_datum
    convert_datum-Denotes zero t d v c e = cc
    convert_datum-Denotes (suc depth) t d v c e =
        or_converted (known_value env (type_kind t) d ci)
          (λ k. known-Denotes (type_kind t) depth ci t d v (type_kind-OfKind t) c k)
          (array-Denotes depth t d v (convert_datum-Denotes depth) c) e
      where
        or_converted :
            (o : Option QualValue) {r : Result ConversionError QualValue} {P : Type 0}
            → (o ≡ some v → P)
            → (r ≡ value v → P)
            → or_convert o r ≡ value v
            → P
        or_converted (some x) f g e = f (ap some (value_injective e))
        or_converted none f g e = g e

    -- The value that datumToQualValue comes to says what the datum is, type by type and element by
    -- element of an array: if the datum is convertible, TimestampProto takes the years 1 to 9999,
    -- and Equals holds of the same values only.
    pub datum_to_qual_value-Denotes :
        (t d : ℕ) (v : QualValue)
        → IsConvertible env (suc (env.rank t)) t d
        → datum_to_qual_value env d t ci ≡ value v
        → Denotes env ci t d v
    unfolding datum_to_qual_value
    datum_to_qual_value-Denotes t d v c e = convert_datum-Denotes (suc (env.rank t)) t d v c e
