-- ===== src/Fdw/Restrictions/Arrays.antt =====
-- The conversion of a datum ends.
use steampipe_postgres_fdw.Prelude.{
  if-P, if◌then◌else◌, ◌==◌, nat_eq, string_eq, Result, value, fail, fail_injective, ℕ, zero, suc,
  ◌+◌, ◌<◌, ◌≡◌, refl, ap, ◌≢◌, Option, none, some, List, [], ◌∷◌, ◌++◌, arith,
}
use mathlib.Core.Path.{fun_ext}
use steampipe_postgres_fdw.Proto.{QualValue}
use steampipe_postgres_fdw.Fdw.Restrictions.Nodes.{Environment, ConversionInfo, TypeInfo}
use steampipe_postgres_fdw.Fdw.Restrictions.Values.{
  ConversionError, on_value, too_deep, unknown_type, known_value, type_kind, or_convert,
  convert_unknown, convert_datum, datum_to_qual_value, datum_array_to_qual_value, array_values,
  appended, list_of, is_array,
}

module _ (env : Environment) where
  convert_unknown-same :
      (f g : ℕ → ℕ → Result ConversionError QualValue) (d t : ℕ) (o : Option TypeInfo)
      → ((info : TypeInfo) → o ≡ some info → f info.typelem ≡ g info.typelem)
      → convert_unknown env f d t o ≡ convert_unknown env g d t o
  unfolding convert_unknown
  convert_unknown-same f g d t none h = refl
  convert_unknown-same f g d t (some info) h =
      ap
        (λ (c : ℕ → Result ConversionError QualValue).
          if is_array info then datum_array_to_qual_value env c d else fail (unknown_type t))
        (h info refl)

  convert_datum-same :
      (f g : ℕ) (ci : ConversionInfo) (t d : ℕ)
      → env.rank t < f
      → env.rank t < g
      → convert_datum env f ci t d ≡ convert_datum env g ci t d
  unfolding convert_datum
  convert_datum-same zero g ci t d h k = absurd (omega arith)
  convert_datum-same (suc f) zero ci t d h k = absurd (omega arith)
  convert_datum-same (suc f) (suc g) ci t d h k =
      ap (or_convert (known_value env (type_kind t) d ci)) (
        convert_unknown-same (convert_datum env f ci) (convert_datum env g ci) d t (env.type_info t)
          (λ info e. fun_ext (λ x.
            convert_datum-same f g ci info.typelem x (omega (arith, env.rank_falls t info e))
              (omega (arith, env.rank_falls t info e)))))

  appended-deep :
      (vs : List (Option QualValue)) (r : Result ConversionError QualValue)
      → r ≢ fail too_deep
      → appended env vs r ≢ fail too_deep
  unfolding appended
  appended-deep vs (value v) h e = cc
  appended-deep vs (fail x) h e = h (ap fail (fail_injective e))

  on_value-deep :
      {A B : Type 0} (r : Result ConversionError A) (f : A → Result ConversionError B)
      → r ≢ fail too_deep
      → ((a : A) → f a ≢ fail too_deep)
      → on_value r f ≢ fail too_deep
  on_value-deep (value a) f h k e = k a e
  on_value-deep (fail x) f h k e = h (ap fail (fail_injective e))

  array_values-deep :
      (convert : ℕ → Result ConversionError QualValue) (es : List (Option ℕ))
      (vs : List (Option QualValue))
      → ((d : ℕ) → convert d ≢ fail too_deep)
      → array_values env convert es vs ≢ fail too_deep
  unfolding array_values
  array_values-deep convert [] vs h e = cc
  array_values-deep convert (none ∷ es) vs h e = array_values-deep convert es (vs ++ none ∷ []) h e
  array_values-deep convert (some d ∷ es) vs h e =
      on_value-deep (appended env vs (convert d)) (λ ws. array_values env convert es ws)
        (appended-deep vs (convert d) (h d)) (λ ws. array_values-deep convert es ws h) e

  list_of-deep :
      (r : Result ConversionError (List (Option QualValue)))
      → r ≢ fail too_deep
      → list_of r ≢ fail too_deep
  unfolding list_of
  list_of-deep (value vs) h e = cc
  list_of-deep (fail x) h e = h (ap fail (fail_injective e))

  datum_array-deep :
      (convert : ℕ → Result ConversionError QualValue) (d : ℕ)
      → ((x : ℕ) → convert x ≢ fail too_deep)
      → datum_array_to_qual_value env convert d ≢ fail too_deep
  unfolding datum_array_to_qual_value
  datum_array-deep convert d h =
      if-P (λ r. r ≢ fail too_deep) (d == 0) (λ e. cc)
        (list_of-deep (array_values env convert (env.array_elements d) [])
          (array_values-deep convert (env.array_elements d) [] h))

  convert_unknown-deep :
      (convert : ℕ → ℕ → Result ConversionError QualValue) (d t : ℕ) (o : Option TypeInfo)
      → ((info : TypeInfo) → o ≡ some info → (x : ℕ) → convert info.typelem x ≢ fail too_deep)
      → convert_unknown env convert d t o ≢ fail too_deep
  unfolding convert_unknown
  convert_unknown-deep convert d t none h e = cc
  convert_unknown-deep convert d t (some info) h e =
      if-P (λ r. r ≢ fail too_deep) (is_array info)
        (datum_array-deep (convert info.typelem) d (h info refl)) (λ x. cc) e

  or_convert-deep :
      (o : Option QualValue) (r : Result ConversionError QualValue)
      → r ≢ fail too_deep
      → or_convert o r ≢ fail too_deep
  or_convert-deep (some v) r h e = cc
  or_convert-deep none r h e = h e

  convert_datum-deep :
      (f : ℕ) (ci : ConversionInfo) (t d : ℕ)
      → env.rank t < f
      → convert_datum env f ci t d ≢ fail too_deep
  unfolding convert_datum
  convert_datum-deep zero ci t d h = absurd (omega arith)
  convert_datum-deep (suc f) ci t d h = or_convert-deep (known_value env (type_kind t) d ci) _ (
      convert_unknown-deep (convert_datum env f ci) d t (env.type_info t) (λ info e x.
        convert_datum-deep f ci info.typelem x (omega (arith, env.rank_falls t info e))))

  -- datumToQualValue ends: its recursion into the elements of arrays never meets a type that is too
  -- deep, and any fuel above the rank of the type gives what it returns.
  pub datum_to_qual_value-ends :
      (d t more : ℕ) (ci : ConversionInfo)
      → (datum_to_qual_value env d t ci ≢ fail too_deep)
        × (convert_datum env (suc (env.rank t) + more) ci t d ≡ datum_to_qual_value env d t ci)
  unfolding datum_to_qual_value
  datum_to_qual_value-ends d t more ci = (
    convert_datum-deep (suc (env.rank t)) ci t d (omega arith),
    convert_datum-same (suc (env.rank t) + more) (suc (env.rank t)) ci t d (omega arith)
        (omega arith),
  )
