-- ===== src/Prelude/GoMap/Keys.antt =====
-- The keys of a map: each stands once, and what that says about its length.
use steampipe_postgres_fdw.Prelude.Tests.{Bool-cases}
use steampipe_postgres_fdw.Prelude.Classes.{Eq, ◌==◌}
use steampipe_postgres_fdw.Prelude.Lists.{length}
use steampipe_postgres_fdw.Prelude.Members.{In, Distinct}
use steampipe_postgres_fdw.Prelude.GoMap.Defs.{GoMap, lookup, insert, erase}
use Prim.Native.Nat.{◌≤◌}
use mathlib.Core.Path.{◌≡◌, refl, sym, ◌∙◌}
use mathlib.Core.Logic.{◌≢◌, ◌⊎◌, inl, inr}
use mathlib.Core.Bool.{false}
use mathlib.Core.Option.{none, some}
use mathlib.Core.List.{List, [], ◌∷◌}
use native.Mathlib.Omega.{arith}

abbrev pub keys {ℓ} : {K : Type 0} {V : Type ℓ} → GoMap K V → List K
keys [] = []
keys ((k, v) ∷ m) = k ∷ keys m

-- What Go guarantees of every map value.
abbrev pub IsMap {ℓ} : {K : Type 0} {V : Type ℓ} → GoMap K V → Type 0
IsMap m = Distinct (keys m)

module _ {ℓ} {K : Type 0} {V : Type ℓ} where
  pub length-le-one :
      (m : GoMap K V) (k : K) → IsMap m → ((j : K) → In j (keys m) → j ≡ k) → length m ≤ 1
  length-le-one [] k d only = omega arith
  length-le-one ((a, v) ∷ []) k d only = omega arith
  length-le-one ((a, v) ∷ (b, w) ∷ m) k d only =
      absurd (d.0 (inl (only b (inr (inl refl)) ∙ sym (only a (inl refl)))))

  pub length-ge-one : (m : GoMap K V) (a : K) → In a (keys m) → 1 ≤ length m
  length-ge-one [] a h = elim h [ ]
  length-ge-one ((k, v) ∷ m) a h = omega arith

  pub length-ge-two :
      (m : GoMap K V) (a b : K) → In a (keys m) → In b (keys m) → a ≢ b → 2 ≤ length m
  length-ge-two [] a b h g n = elim h [ ]
  length-ge-two ((k, v) ∷ m) a b (inl p) (inl q) n = absurd (n (sym p ∙ q))
  length-ge-two ((k, v) ∷ m) a b (inl p) (inr g) n = omega (arith, length-ge-one m b g)
  length-ge-two ((k, v) ∷ m) a b (inr h) g n = omega (arith, length-ge-one m a h)

In-tail : {K : Type 0} (k j i : K) (ks : List K) → (k ≡ j) ⊎ In j ks → (k ≡ j) ⊎ In j (i ∷ ks)
In-tail k j i ks (inl p) = inl p
In-tail k j i ks (inr h) = inr (inr h)

module _ {ℓ} {K : Type 0} {V : Type ℓ} ⦃e : Eq K⦄ where
  pub In-keys-insert :
      (k j : K) (v : V) (m : GoMap K V) → In j (keys (insert k v m)) → (k ≡ j) ⊎ In j (keys m)
  unfolding insert
  In-keys-insert k j v [] h = h
  In-keys-insert k j v ((i, w) ∷ m) h = elim (Bool-cases (i == k)) [
    | inl y ↦ inr (rw y at h)
    | inr n ↦ elim (later n) [
      | inl p ↦ inr (inl p)
      | inr g ↦ In-tail k j i (keys m) (In-keys-insert k j v m g)
    ]
  ]
    where
      later : (i == k) ≡ false → In j (i ∷ keys (insert k v m))
      later n = rw n at h

  pub IsMap-insert : (k : K) (v : V) (m : GoMap K V) → IsMap m → IsMap (insert k v m)
  unfolding insert
  IsMap-insert k v [] d = ((λ h. elim h [ ]), tt)
  IsMap-insert k v ((i, w) ∷ m) d = elim (Bool-cases (i == k)) [
    | inl y ↦ rw y d
    | inr n ↦ rw n (
      (λ h. elim (In-keys-insert k i v m h) [
        | inl p ↦ cc ((e.same_iff i k).1 (sym p))
        | inr g ↦ d.0 g
      ]),
      IsMap-insert k v m d.1,
    )
  ]

  pub In-keys-erase : (k j : K) (m : GoMap K V) → In j (keys (erase k m)) → In j (keys m) × (k ≢ j)
  unfolding erase
  In-keys-erase k j [] h = elim h [ ]
  In-keys-erase k j ((i, w) ∷ m) h = elim (Bool-cases (i == k)) [
    | inl y ↦ wider (In-keys-erase k j m (rw y at h))
    | inr n ↦ elim (later n) [
      | inl p ↦ (inl p, (λ q. cc ((e.same_iff i k).1 (p ∙ sym q))))
      | inr g ↦ wider (In-keys-erase k j m g)
    ]
  ]
    where
      wider : In j (keys m) × (k ≢ j) → In j (i ∷ keys m) × (k ≢ j)
      wider (g, n) = (inr g, n)

      later : (i == k) ≡ false → In j (i ∷ keys (erase k m))
      later n = rw n at h

  pub IsMap-erase : (k : K) (m : GoMap K V) → IsMap m → IsMap (erase k m)
  unfolding erase
  IsMap-erase k [] d = tt
  IsMap-erase k ((i, w) ∷ m) d = elim (Bool-cases (i == k)) [
    | inl y ↦ rw y (IsMap-erase k m d.1)
    | inr n ↦ rw n ((λ h. d.0 (In-keys-erase k i m h).0), IsMap-erase k m d.1)
  ]

  pub lookup→In : (k : K) (v : V) (m : GoMap K V) → lookup k m ≡ some v → In k (keys m)
  unfolding lookup
  lookup→In k v [] h = cc
  lookup→In k v ((i, w) ∷ m) h = elim (Bool-cases (i == k)) [
    | inl y ↦ inl ((e.same_iff i k).0 y)
    | inr n ↦ inr (lookup→In k v m (rw n at h))
  ]

  pub In→lookup : (k : K) (m : GoMap K V) → In k (keys m) → lookup k m ≢ none
  unfolding lookup
  In→lookup k [] h p = elim h [ ]
  In→lookup k ((i, w) ∷ m) (inl q) p = ground (arith, e.same_iff i k)
  In→lookup k ((i, w) ∷ m) (inr h) p = ground (arith, In→lookup k m h)

  -- A map with one key is its one entry.
  pub singleton :
      (k : K) (v : V) (m : GoMap K V)
      → IsMap m
      → ((j : K) → In j (keys m) → j ≡ k)
      → lookup k m ≡ some v
      → m ≡ (k, v) ∷ []
  unfolding lookup
  singleton k v [] d only h = cc
  singleton k v ((a, w) ∷ []) d only h = ground (arith, only a (inl refl), e.same_iff a k)
  singleton k v ((a, w) ∷ (b, x) ∷ m) d only h =
      absurd (d.0 (inl (only b (inr (inl refl)) ∙ sym (only a (inl refl)))))

  pub In-insert_self : (k : K) (v : V) (m : GoMap K V) → In k (keys (insert k v m))
  unfolding insert
  In-insert_self k v [] = inl refl
  In-insert_self k v ((i, w) ∷ m) = elim (Bool-cases (i == k)) [
    | inl y ↦ rw y (inl ((e.same_iff i k).0 y))
    | inr n ↦ rw n (inr (In-insert_self k v m))
  ]

  pub In-insert : (k j : K) (v : V) (m : GoMap K V) → In j (keys m) → In j (keys (insert k v m))
  unfolding insert
  In-insert k j v [] h = elim h [ ]
  In-insert k j v ((i, w) ∷ m) h = elim (Bool-cases (i == k)) [
    | inl y ↦ rw y h
    | inr n ↦ rw n (elim h [ inl p ↦ inl p | inr g ↦ inr (In-insert k j v m g) ])
  ]

  pub In-erase : (k j : K) (m : GoMap K V) → k ≢ j → In j (keys m) → In j (keys (erase k m))
  unfolding erase
  In-erase k j [] ne h = h
  In-erase k j ((i, w) ∷ m) ne h = elim (Bool-cases (i == k)) [
    | inl y ↦ rw y (elim h [
      | inl p ↦ absurd (ne (sym ((e.same_iff i k).0 y) ∙ p))
      | inr g ↦ In-erase k j m ne g
    ])
    | inr n ↦ rw n (elim h [ inl p ↦ inl p | inr g ↦ inr (In-erase k j m ne g) ])
  ]
