-- ===== src/Hub/Timing/Stale.antt =====
-- `removeStaleScanMetadata` erases the same keys from two maps; what it does to each of them.
use steampipe_postgres_fdw.Prelude.{
  not, List, [], ◌∷◌, if◌then◌else◌, ◌==◌, ◌≡◌, refl, sym, ◌∙◌, Bool-cases, inl, inr, In, ==_iff,
}
use steampipe_postgres_fdw.Prelude.Int.{ℤ, int_eq}
use steampipe_postgres_fdw.Prelude.GoMap.{
  GoMap, lookup, erase, keys, IsMap, IsMap-erase, In-keys-erase, lookup-erase,
}
use steampipe_postgres_fdw.Hub.Timing.Defs.{Environment, QueryTimingMetadata, remove_keys}

module _ {V : Type 0} where
  abbrev pub erase_stale : ℤ → List ℤ → GoMap ℤ V → GoMap ℤ V
  erase_stale current [] m = m
  erase_stale current (t ∷ ts) m =
      erase_stale current ts (if not (t == current) then erase t m else m)

  pub IsMap-erase_stale :
      (current : ℤ) (ts : List ℤ) (m : GoMap ℤ V) → IsMap m → IsMap (erase_stale current ts m)
  IsMap-erase_stale current [] m h = h
  IsMap-erase_stale current (t ∷ ts) m h =
      IsMap-erase_stale current ts _
        (elim (Bool-cases (t == current)) [ inl y ↦ rw y h | inr n ↦ rw n (IsMap-erase t m h) ])

  kept_key :
      (current t j : ℤ) (m : GoMap ℤ V)
      → In j (keys (if not (t == current) then erase t m else m))
      → In j (keys m) × (t ≡ j → j ≡ current)
  kept_key current t j m h = elim (Bool-cases (t == current)) [
    | inl y ↦ ((rw y at h), λ e. sym e ∙ (==_iff t current).0 y)
    | inr n ↦ let (g, ne) = In-keys-erase t j m (rw n at h) in (g, λ e. absurd (ne e))
  ]

  -- A key that is left was there, and if it is one of those that were visited it is the current one.
  pub In-keys-erase_stale :
      (current : ℤ) (ts : List ℤ) (j : ℤ) (m : GoMap ℤ V)
      → In j (keys (erase_stale current ts m))
      → In j (keys m) × (In j ts → j ≡ current)
  In-keys-erase_stale current [] j m h = (h, λ g. elim g [ ])
  In-keys-erase_stale current (t ∷ ts) j m h =
      let (g, f) = In-keys-erase_stale current ts j _ h in
      let (g', f') = kept_key current t j m g in (g', elim [ inl e ↦ f' e | inr n ↦ f n ])

  -- An entry whose key is not visited, or is the current one, stays.
  pub lookup-erase_stale :
      (current : ℤ) (ts : List ℤ) (j : ℤ) (m : GoMap ℤ V)
      → (In j ts → j ≡ current)
      → lookup j (erase_stale current ts m) ≡ lookup j m
  lookup-erase_stale current [] j m h = refl
  lookup-erase_stale current (t ∷ ts) j m h =
      lookup-erase_stale current ts j _ (λ g. h (inr g)) ∙ elim (Bool-cases (t == current)) [
        | inl y ↦ rw y refl
        | inr n ↦
            rw (n, lookup-erase)
              (elim (Bool-cases (t == j)) [
                | inl e ↦
                    absurd
                      (cc ((==_iff t current).1 ((==_iff t j).0 e ∙ h (inl ((==_iff t j).0 e)))))
                | inr ne ↦ rw ne refl
              ])
      ]

pub remove_keys-erase_stale :
    (env : Environment) (current : ℤ) (ts : List ℤ) (m : QueryTimingMetadata env)
    → remove_keys env current ts m ≡ record {
      scan_metadata = erase_stale current ts m.scan_metadata;
      query_row_summary = erase_stale current ts m.query_row_summary;
    }
unfolding remove_keys
remove_keys-erase_stale env current [] m = refl
remove_keys-erase_stale env current (t ∷ ts) m =
    remove_keys-erase_stale env current ts _
    ∙ elim (Bool-cases (t == current)) [ inl y ↦ rw y refl | inr n ↦ rw n refl ]
