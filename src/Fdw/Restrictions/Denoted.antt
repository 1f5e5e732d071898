-- ===== src/Fdw/Restrictions/Denoted.antt =====
-- What a value of a qual says of a datum of Postgres, type by type, and which datums it can be said
-- of. This does not use the conversion of quals.go: it is what the conversion is to come to.
use steampipe_postgres_fdw.Prelude.{
  take, ◌==◌, nat_eq, string_eq, In, ℕ, zero, suc, ◌≡◌, ◌⊎◌, true, false, Option, some, List,
}
use steampipe_postgres_fdw.Prelude.Int.{ℤ}
use steampipe_postgres_fdw.Proto.{
  QualValue, string_value, int64_value, double_value, bool_value, inet_value, jsonb_value,
  timestamp_value, list_value,
}
use steampipe_postgres_fdw.Fdw.Restrictions.Nodes.{Environment, ConversionInfo, TypeInfo}
use steampipe_postgres_fdw.Fdw.Restrictions.Times.{Instant, Fits, scale, nanoseconds_after}
use steampipe_postgres_fdw.Fdw.Restrictions.Values.{to_list}

-- The types of pg_type that are meant.
abbrev pub IsText : ℕ → Type 0
IsText t = (t ≡ 25) ⊎ (t ≡ 1043)

abbrev pub IsInet : ℕ → Type 0
IsInet t = (t ≡ 869) ⊎ (t ≡ 650)

abbrev pub IsTimestamp : ℕ → Type 0
IsTimestamp t = (t ≡ 1114) ⊎ (t ≡ 1184)

-- The instant is so many microseconds after 2000, exactly.
abbrev pub IsAt : Instant → ℤ → Type 0
IsAt i us = nanoseconds_after i ≡ scale 1000 us

module _ (env : Environment) (ci : ConversionInfo) where
  -- The value says what the datum is, for a datum of the type. The list for an array holds the
  -- values of its elements that are not NULL, and no others.
  pub data Denotes : ℕ → ℕ → QualValue → Type 0 where
    text : (t d : ℕ) → IsText t → Denotes t d (string_value (env.text d ci))
    inet_v4 :
        (t d : ℕ)
        → IsInet t
        → (env.inet d).is_ipv6 ≡ false
        → Denotes t d (
            inet_value
              (env.inet d).netmask_bits
              (env.ipv4_string (take 4 (env.inet d).bytes))
              (env.cidr_string
                (env.ipv4_string (take 4 (env.inet d).bytes))
                (env.inet d).netmask_bits)
              env.ipv4)
    inet_v6 :
        (t d : ℕ)
        → IsInet t
        → (env.inet d).is_ipv6 ≡ true
        → Denotes t d (
            inet_value
              (env.inet d).netmask_bits
              (env.ipv6_string (env.inet d).bytes)
              (env.cidr_string (env.ipv6_string (env.inet d).bytes) (env.inet d).netmask_bits)
              env.ipv6)
    date :
        (t d : ℕ) (i : Instant)
        → t ≡ 1082
        → IsAt i (env.date d)
        → Denotes t d (timestamp_value i.0 i.1)
    timestamp :
        (t d : ℕ) (i : Instant)
        → IsTimestamp t
        → IsAt i (env.timestamp d)
        → Denotes t d (timestamp_value i.0 i.1)
    int2 : (t d : ℕ) → t ≡ 21 → Denotes t d (int64_value (env.int16 d))
    int4 : (t d : ℕ) → t ≡ 23 → Denotes t d (int64_value (env.int32 d))
    int8 : (t d : ℕ) → t ≡ 20 → Denotes t d (int64_value (env.int64 d))
    float4 : (t d : ℕ) → t ≡ 700 → Denotes t d (double_value (env.float4 d))
    float8 : (t d : ℕ) → t ≡ 701 → Denotes t d (double_value (env.float8 d))
    boolean : (t d : ℕ) → t ≡ 16 → Denotes t d (bool_value (env.bool d))
    jsonb : (t d : ℕ) → t ≡ 3802 → Denotes t d (jsonb_value (env.jsonb d))
    array :
        (t d : ℕ) (info : TypeInfo) (element_value : ℕ → QualValue) (vs : List (Option QualValue))
        → env.type_info t ≡ some info
        → info.variable_length ≡ true
        → ((e : ℕ) → In (some e) (env.array_elements d) → Denotes info.typelem e (element_value e))
        → ((e : ℕ) → In (some e) (env.array_elements d) → In (some (element_value e)) vs)
        → ((u : QualValue)
            → In (some u) vs
            → (e : ℕ) × In (some e) (env.array_elements d) × (element_value e ≡ u))
        → Denotes t d (list_value (to_list vs))

-- A datum that a value can speak of: the nanoseconds of a date or timestamp fit an int64, what is
-- passed by reference is there, and the same holds of the elements of an array. `depth` is that of
-- the array types.
unfoldable pub IsConvertible : Environment → (depth t d : ℕ) → Type 0
IsConvertible env zero t d = Unit
IsConvertible env (suc depth) t d =
    (t ≡ 1082 → Fits (env.date d))
    × (IsTimestamp t → Fits (env.timestamp d))
    × (IsInet t → (d == 0) ≡ false)
    × (t ≡ 3802 → (d == 0) ≡ false)
    × ((info : TypeInfo)
        → env.type_info t ≡ some info
        → (info.typelem == 0) ≡ false
        → info.variable_length ≡ true
        → ((d == 0) ≡ false)
          × ((e : ℕ) → In (some e) (env.array_elements d) → IsConvertible env depth info.typelem e))
