-- ===== src/Fdw/Restrictions/Elements.antt =====
-- The list of values that an array becomes.
use steampipe_postgres_fdw.Prelude.{
  if-P, Bool-cases, nat_eq, string_eq, In, In-append_left, In-append_right, In-append_split, Result,
  value, fail, value_injective, ℕ, ◌≡◌, refl, sym, ap, ◌∙◌, subst, ◌↔◌, ◌⊎◌, inl, inr, true, Option,
  none, some, List, [], ◌∷◌, ◌++◌, arith,
}
use steampipe_postgres_fdw.Proto.{QualValue}
use steampipe_postgres_fdw.Fdw.Restrictions.Nodes.{Environment}
use steampipe_postgres_fdw.Fdw.Restrictions.Values.{
  ConversionError, on_value, array_values, appended, append_new, qual_value_array_contains_value,
}

-- No value stands twice; a nil entry may.
abbrev pub NoRepeats : List (Option QualValue) → Type 0
NoRepeats [] = Unit
NoRepeats (none ∷ vs) = NoRepeats vs
NoRepeats (some v ∷ vs) = ¬ In (some v) vs × NoRepeats vs

NoRepeats-append_none : (vs : List (Option QualValue)) → NoRepeats vs → NoRepeats (vs ++ none ∷ [])
NoRepeats-append_none [] h = tt
NoRepeats-append_none (none ∷ vs) h = NoRepeats-append_none vs h
NoRepeats-append_none (some v ∷ vs) h = (
  λ m. elim (In-append_split (some v) vs (none ∷ []) m) [
    | inl l ↦ absurd (h.0 l)
    | inr r ↦ absurd (ground arith)
  ],
  NoRepeats-append_none vs h.1,
)

NoRepeats-append_some :
    (vs : List (Option QualValue)) (u : QualValue)
    → NoRepeats vs
    → ¬ In (some u) vs
    → NoRepeats (vs ++ some u ∷ [])
NoRepeats-append_some [] u h n = ((λ m. elim m [ ]), tt)
NoRepeats-append_some (none ∷ vs) u h n = NoRepeats-append_some vs u h (λ m. n (inr m))
NoRepeats-append_some (some v ∷ vs) u h n = (
  λ m. elim (In-append_split (some v) vs (some u ∷ []) m) [
    | inl l ↦ absurd (h.0 l)
    | inr r ↦ absurd (elim r [ inl e ↦ n (inl (sym e)) | inr x ↦ elim x [ ] ])
  ],
  NoRepeats-append_some vs u h.1 (λ m. n (inr m)),
)

-- QualValue.Equals tells values apart, and a nil value is equal to none.
abbrev pub TellsApart : Environment → Type 0
TellsApart env = (o : Option QualValue) (v : QualValue) → (env.same_value o v ≡ true) ↔ (o ≡ some v)

-- What an element contributes.
abbrev pub IsElement : (ℕ → Result ConversionError QualValue) → List (Option ℕ) → QualValue → Type 0
IsElement convert es v = (d : ℕ) × In (some d) es × (convert d ≡ value v)

-- QualValue.Equals of two values says that they are the same.
abbrev pub SameIsEqual : Environment → Type 0
SameIsEqual env = (o : Option QualValue) (v : QualValue) → env.same_value o v ≡ true → o ≡ some v

module _ (env : Environment) (sound : SameIsEqual env) where
  array_contains→In :
      (vs : List (Option QualValue)) (v : QualValue)
      → qual_value_array_contains_value env vs v ≡ true
      → In (some v) vs
  unfolding qual_value_array_contains_value
  array_contains→In [] v e = absurd (cc)
  array_contains→In (w ∷ vs) v e = elim (Bool-cases (env.same_value w v)) [
    | inl y ↦ inl (sound w v y)
    | inr n ↦ inr (array_contains→In vs v (rw n at e))
  ]

  append_new-In :
      (vs : List (Option QualValue)) (v u : QualValue)
      → In (some u) (append_new env vs v) ↔ (In (some u) vs ⊎ (v ≡ u))
  unfolding append_new
  append_new-In vs v u = elim (Bool-cases (qual_value_array_contains_value env vs v)) [
    | inl y ↦
        rw y ((λ m. inl m), λ o. elim o [ inl m ↦ m | inr e ↦ rw (← e) (array_contains→In vs v y) ])
    | inr n ↦ rw n (
      (λ m. elim (In-append_split (some u) vs (some v ∷ []) m) [
        | inl l ↦ inl l
        | inr r ↦ inr (ground arith)
      ]),
      λ o. elim o [
        | inl m ↦ In-append_left (some u) vs (some v ∷ []) m
        | inr e ↦ In-append_right (some u) vs (some v ∷ []) (inl (ap some e))
      ],
    )
  ]

  on_value_parts :
      {A B : Type 0} (r : Result ConversionError A) (f : A → Result ConversionError B) (b : B)
      → on_value r f ≡ value b
      → (a : A) × (r ≡ value a) × (f a ≡ value b)
  on_value_parts (value a) f b e = (a, refl, e)
  on_value_parts (fail x) f b e = cc

  appended_parts :
      (vs ws : List (Option QualValue)) (r : Result ConversionError QualValue)
      → appended env vs r ≡ value ws
      → (v : QualValue) × (r ≡ value v) × (append_new env vs v ≡ ws)
  unfolding appended
  appended_parts vs ws (value v) e = (v, refl, value_injective e)
  appended_parts vs ws (fail x) e = cc

  module _ (convert : ℕ → Result ConversionError QualValue) where
    shift :
        (u : QualValue) (vs us : List (Option QualValue)) (d : ℕ) (es : List (Option ℕ))
        (v : QualValue)
        → convert d ≡ value v
        → (In (some u) us ↔ (In (some u) vs ⊎ (v ≡ u)))
        → (In (some u) us ⊎ IsElement convert es u)
          ↔ (In (some u) vs ⊎ IsElement convert (some d ∷ es) u)
    shift u vs us d es v c both = (
      λ o. elim o [
        | inl m ↦ elim (both.0 m) [ inl l ↦ inl l | inr e ↦ inr (d, inl refl, c ∙ ap value e) ]
        | inr x ↦ inr (x.0, inr x.1, x.2)
      ],
      λ o. elim o [ inl m ↦ inl (both.1 (inl m)) | inr x ↦ element x ],
    )
      where
        element : IsElement convert (some d ∷ es) u → In (some u) us ⊎ IsElement convert es u
        element (d', inl e, c') = inl (both.1 (inr (ground arith)))
        element (d', inr m, c') = inr (d', m, c')

    null_back :
        (u : QualValue) (vs : List (Option QualValue)) (es : List (Option ℕ))
        → In (some u) (vs ++ none ∷ []) ⊎ IsElement convert es u
        → In (some u) vs ⊎ IsElement convert (none ∷ es) u
    null_back u vs es (inr x) = inr (x.0, inr x.1, x.2)
    null_back u vs es (inl m) = elim (In-append_split (some u) vs (none ∷ []) m) [
      | inl l ↦ inl l
      | inr r ↦ absurd (ground arith)
    ]

    null_on :
        (u : QualValue) (vs : List (Option QualValue)) (es : List (Option ℕ))
        → In (some u) vs ⊎ IsElement convert (none ∷ es) u
        → In (some u) (vs ++ none ∷ []) ⊎ IsElement convert es u
    null_on u vs es (inl m) = inl (In-append_left (some u) vs (none ∷ []) m)
    null_on u vs es (inr (d, inl e, c)) = cc
    null_on u vs es (inr (d, inr m, c)) = inr (d, m, c)

    pub array_values-In :
        (u : QualValue) (es : List (Option ℕ)) (vs ws : List (Option QualValue))
        → array_values env convert es vs ≡ value ws
        → In (some u) ws ↔ (In (some u) vs ⊎ IsElement convert es u)
    unfolding array_values
    array_values-In u [] vs ws e = (
      (λ m. inl (subst (In (some u)) (sym (value_injective e)) m)),
      λ o. elim o [ inl m ↦ subst (In (some u)) (value_injective e) m | inr x ↦ elim x.1 [ ] ],
    )
    array_values-In u (none ∷ es) vs ws e =
        let ih = array_values-In u es (vs ++ none ∷ []) ws e in
        (λ m. null_back u vs es (ih.0 m), λ o. ih.1 (null_on u vs es o))
    array_values-In u (some d ∷ es) vs ws e =
        let k =
          on_value_parts (appended env vs (convert d)) (λ us. array_values env convert es us) ws
            e in
        let v = appended_parts vs k.0 (convert d) k.1 in
        let ih = array_values-In u es k.0 ws k.2 in
        let both = shift u vs k.0 d es v.0 v.1 (
          subst (λ us. In (some u) us ↔ (In (some u) vs ⊎ (v.0 ≡ u))) v.2
            (append_new-In vs v.0 u)) in
        (λ m. both.0 (ih.0 m), λ o. ih.1 (both.1 o))

    -- Each element has been converted.
    pub array_values-converts :
        (es : List (Option ℕ)) (vs ws : List (Option QualValue)) (d : ℕ)
        → array_values env convert es vs ≡ value ws
        → In (some d) es
        → (v : QualValue) × (convert d ≡ value v)
    unfolding array_values
    array_values-converts [] vs ws d e m = elim m [ ]
    array_values-converts (none ∷ es) vs ws d e (inl q) = cc
    array_values-converts (none ∷ es) vs ws d e (inr m) =
        array_values-converts es (vs ++ none ∷ []) ws d e m
    array_values-converts (some d' ∷ es) vs ws d e m =
        let k =
          on_value_parts (appended env vs (convert d')) (λ us. array_values env convert es us) ws
            e in
        let v = appended_parts vs k.0 (convert d') k.1 in
        elim m [
          | inl q ↦ (
            v.0,
            (let same : d' ≡ d = ground arith in subst (λ x. convert x ≡ value v.0) same v.1),
          )
          | inr n ↦ array_values-converts es k.0 ws d k.2 n
        ]

module _ (env : Environment) (apart : TellsApart env) where
  sound_of : SameIsEqual env
  sound_of o v = (apart o v).0

  array_contains← :
      (vs : List (Option QualValue)) (v : QualValue)
      → In (some v) vs
      → qual_value_array_contains_value env vs v ≡ true
  unfolding qual_value_array_contains_value
  array_contains← [] v m = elim m [ ]
  array_contains← (w ∷ vs) v (inl y) = rw ((apart w v).1 y) refl
  array_contains← (w ∷ vs) v (inr r) =
      if-P (λ b. b ≡ true) (env.same_value w v) refl (array_contains← vs v r)

  append_new-NoRepeats :
      (vs : List (Option QualValue)) (v : QualValue)
      → NoRepeats vs
      → NoRepeats (append_new env vs v)
  unfolding append_new
  append_new-NoRepeats vs v h = elim (Bool-cases (qual_value_array_contains_value env vs v)) [
    | inl y ↦ rw y h
    | inr n ↦ rw n (
        NoRepeats-append_some vs v h (λ m. absurd (
          let t : qual_value_array_contains_value env vs v ≡ true = array_contains← vs v m in
          ground arith)))
  ]

  module _ (convert : ℕ → Result ConversionError QualValue) where
    array_values-NoRepeats :
        (es : List (Option ℕ)) (vs ws : List (Option QualValue))
        → array_values env convert es vs ≡ value ws
        → NoRepeats vs
        → NoRepeats ws
    unfolding array_values
    array_values-NoRepeats [] vs ws e h = subst NoRepeats (value_injective e) h
    array_values-NoRepeats (none ∷ es) vs ws e h =
        array_values-NoRepeats es (vs ++ none ∷ []) ws e (NoRepeats-append_none vs h)
    array_values-NoRepeats (some d ∷ es) vs ws e h =
        let k =
          on_value_parts env sound_of (appended env vs (convert d))
            (λ us. array_values env convert es us) ws e in
        let v = appended_parts env sound_of vs k.0 (convert d) k.1 in
        array_values-NoRepeats es k.0 ws k.2 (subst NoRepeats v.2 (append_new-NoRepeats vs v.0 h))

-- The list that an array becomes holds no value twice, and it holds exactly the values of the
-- elements that are not NULL. `convert` is the conversion of one element.
pub array_has_distinct_values :
    (env : Environment) (convert : ℕ → Result ConversionError QualValue) (es : List (Option ℕ))
    (ws : List (Option QualValue)) (u : QualValue)
    → TellsApart env
    → array_values env convert es [] ≡ value ws
    → NoRepeats ws × (In (some u) ws ↔ IsElement convert es u)
array_has_distinct_values env convert es ws u apart e =
    let both = array_values-In env (sound_of env apart) convert u es [] ws e in
    (
      array_values-NoRepeats env apart convert es [] ws e tt,
      (λ m. from_start (both.0 m), λ x. both.1 (inr x)),
    )
  where
    from_start : ⊥ ⊎ IsElement convert es u → IsElement convert es u
    from_start (inl m) = elim m [ ]
    from_start (inr x) = x
