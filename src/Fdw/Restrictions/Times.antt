-- ===== src/Fdw/Restrictions/Times.antt =====
-- TimeToPgTime and PgTimeToTimestamp of helpers.go: microseconds from 2000, and the seconds and
-- nanoseconds of Go and protobuf. An int64 is an integer, and what leaves its range wraps round.
use steampipe_postgres_fdw.Prelude.{
  ltb, if◌then◌else◌, Bool-cases, nat_eq, string_eq, Result, value, ℕ, suc, ◌+◌, ◌-◌, ◌*◌, ◌/◌, ◌%◌,
  ◌^◌, ◌<◌, String, ◌≡◌, subst, ◌↔◌, inl, inr, arith,
}
use steampipe_postgres_fdw.Prelude.Int.{ℤ, pos, negsuc, ◌+ℤ◌, ◌-ℤ◌, ◌≤ℤ◌}

-- time.Date(2000, time.January, 1, 0, 0, 0, 0, time.UTC), in seconds from 1970.
abbrev pub epoch : ℤ
epoch = pos 946684800

abbrev pub int64_size : ℕ
int64_size = 2 ^ 64

-- The bit pattern of an integer, and the int64 that a pattern stands for.
abbrev pub pattern_of : ℤ → ℕ
pattern_of (pos n) = n % 2 ^ 64
pattern_of (negsuc n) = 2 ^ 64 - 1 - n % 2 ^ 64

abbrev pub int64_of : ℕ → ℤ
int64_of w = if ltb w (2 ^ 63) then pos w else negsuc (2 ^ 64 - w - 1)

abbrev pub scale : ℕ → ℤ → ℤ
scale k (pos n) = pos (n * k)
scale k (negsuc n) = negsuc (n * k + k - 1)

-- time.Duration(t * 1000) * time.Nanosecond
unfoldable pub duration_of : ℤ → ℤ
duration_of t = int64_of (pattern_of (scale 1000 t))

-- The quotient rounded down, and the remainder.
abbrev pub floor_div : ℤ → ℕ → ℤ
floor_div (pos n) k = pos (n / k)
floor_div (negsuc n) k = negsuc (n / k)

abbrev pub floor_mod : ℤ → ℕ → ℕ
floor_mod (pos n) k = n % k
floor_mod (negsuc n) k = k - 1 - n % k

-- An instant, as seconds from 1970 and nanoseconds within the second.
abbrev pub Instant : Type 0
Instant = ℤ × ℕ

-- epoch.Add
unfoldable pub instant_after : ℤ → Instant
instant_after d = (epoch +ℤ floor_div d 1000000000, floor_mod d 1000000000)

-- PgTimeToTimestamp, with ptypes.TimestampProto.
unfoldable pub pg_time_to_timestamp : (ℤ → ℕ → Result String Instant) → ℤ → Result String Instant
unfolding duration_of instant_after
pg_time_to_timestamp proto t =
    let at_time = instant_after (duration_of t) in proto at_time.0 at_time.1

-- The nanoseconds from the epoch to an instant.
unfoldable pub nanoseconds_after : Instant → ℤ
nanoseconds_after at_time = scale 1000000000 (at_time.0 -ℤ epoch) +ℤ pos at_time.1

-- Time.Sub: a difference that does not fit is the largest or the smallest duration.
unfoldable pub saturate : ℤ → ℤ
saturate (pos n) = if ltb n (2 ^ 63) then pos n else pos (2 ^ 63 - 1)
saturate (negsuc n) = if ltb n (2 ^ 63) then negsuc n else negsuc (2 ^ 63 - 1)

-- The quotient rounded towards zero, as Go divides.
unfoldable pub trunc_div : ℤ → ℕ → ℤ
trunc_div (pos n) k = pos (n / k)
trunc_div (negsuc n) k = pos 0 -ℤ pos (suc n / k)

-- TimeToPgTime
unfoldable pub time_to_pg_time : Instant → ℤ
unfolding nanoseconds_after saturate trunc_div
time_to_pg_time at_time = trunc_div (saturate (nanoseconds_after at_time)) 1000

-- The microseconds whose nanoseconds fit an int64: about 292 years to each side of 2000.
abbrev pub Fits : ℤ → Type 0
Fits (pos n) = n < 9223372036854776
Fits (negsuc n) = n < 9223372036854775

pub duration_of-exact : (t : ℤ) → Fits t → duration_of t ≡ scale 1000 t
unfolding duration_of
duration_of-exact (pos n) h = ground arith
duration_of-exact (negsuc n) h = ground arith

pub nanoseconds_after-instant_after : (d : ℤ) → nanoseconds_after (instant_after d) ≡ d
unfolding nanoseconds_after instant_after ◌+ℤ◌ ◌-ℤ◌
nanoseconds_after-instant_after (pos n) = ground arith
nanoseconds_after-instant_after (negsuc n) = ground arith

trunc_div-scale : (t : ℤ) → trunc_div (scale 1000 t) 1000 ≡ t
unfolding trunc_div ◌-ℤ◌
trunc_div-scale (pos n) = ground arith
trunc_div-scale (negsuc n) = ground arith

saturate-scale : (t : ℤ) → Fits t → saturate (scale 1000 t) ≡ scale 1000 t
unfolding saturate
saturate-scale (pos n) h = ground arith
saturate-scale (negsuc n) h = ground arith

time_to_pg_time-Fits : (d : ℤ) → Fits (trunc_div (saturate d) 1000)
unfolding trunc_div saturate ◌-ℤ◌
time_to_pg_time-Fits (pos n) = elim (Bool-cases (ltb n (2 ^ 63))) [
  | inl e ↦ rw e (ground arith)
  | inr e ↦ rw e (omega arith)
]
time_to_pg_time-Fits (negsuc n) = elim (Bool-cases (ltb n (2 ^ 63))) [
  | inl e ↦ rw e (ground arith)
  | inr e ↦ rw e (omega arith)
]

exact_back : (t : ℤ) → Fits t → time_to_pg_time (instant_after (duration_of t)) ≡ t
unfolding time_to_pg_time
exact_back t h =
    rw (nanoseconds_after-instant_after, duration_of-exact t h, saturate-scale t h)
      (trunc_div-scale t)

back_Fits : (t : ℤ) → time_to_pg_time (instant_after (duration_of t)) ≡ t → Fits t
unfolding time_to_pg_time
back_Fits t e =
    subst Fits e (time_to_pg_time-Fits (nanoseconds_after (instant_after (duration_of t))))

-- What ptypes.TimestampProto documents: it takes every instant of the years 1 to 9999.
abbrev pub TakesYears : (ℤ → ℕ → Result String Instant) → Type 0
TakesYears proto =
    (s : ℤ) (n : ℕ)
    → negsuc 62135596799 ≤ℤ s
    → s ≤ℤ pos 253402300799
    → n < 1000000000
    → proto s n ≡ value (s, n)

duration_bounds :
    (t : ℤ) → (negsuc (2 ^ 63 - 1) ≤ℤ duration_of t) × (duration_of t ≤ℤ pos (2 ^ 63 - 1))
unfolding duration_of
duration_bounds (pos n) = ground arith
duration_bounds (negsuc n) = ground arith

within_years :
    (proto : ℤ → ℕ → Result String Instant) (d : ℤ)
    → TakesYears proto
    → negsuc (2 ^ 63 - 1) ≤ℤ d
    → d ≤ℤ pos (2 ^ 63 - 1)
    → proto (instant_after d).0 (instant_after d).1 ≡ value (instant_after d)
unfolding instant_after ◌+ℤ◌
within_years proto (pos n) law low high = law _ _ (ground arith) (ground arith) (omega arith)
within_years proto (negsuc n) law low high = law _ _ (ground arith) (ground arith) (omega arith)

pub pg_time_to_timestamp-value :
    (proto : ℤ → ℕ → Result String Instant) (t : ℤ)
    → TakesYears proto
    → pg_time_to_timestamp proto t ≡ value (instant_after (duration_of t))
unfolding pg_time_to_timestamp
pg_time_to_timestamp-value proto t law =
    within_years proto (duration_of t) law (duration_bounds t).0 (duration_bounds t).1

-- PgTimeToTimestamp reports no error for any time, and TimeToPgTime turns its result back into the
-- time exactly when the nanoseconds from 2000 to the time fit an int64. For other times, such as
-- infinity, the result is another time, and no error is reported.
pub pg_time_round_trip :
    (proto : ℤ → ℕ → Result String Instant) (t : ℤ)
    → TakesYears proto
    → (i : Instant) × (pg_time_to_timestamp proto t ≡ value i) × ((time_to_pg_time i ≡ t) ↔ Fits t)
pg_time_round_trip proto t law = (
  instant_after (duration_of t),
  pg_time_to_timestamp-value proto t law,
  (back_Fits t, exact_back t),
)
