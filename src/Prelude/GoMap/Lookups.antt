-- ===== src/Prelude/GoMap/Lookups.antt =====
-- What a write or a delete makes of a lookup, at its key and at the others.
use mathlib.Core.Path.{◌≡◌, refl, ◌∙◌, sym}
use mathlib.Core.Logic.{◌≢◌, ◌⊎◌, inl, inr}
use mathlib.Core.Bool.{Bool, true, false}
use mathlib.Core.Option.{none, some}
use steampipe_postgres_fdw.Prelude.Tests.{if◌then◌else◌, Bool-cases}
use steampipe_postgres_fdw.Prelude.Classes.{Eq, ◌==◌, ==_refl, not-==}
use steampipe_postgres_fdw.Prelude.GoMap.Defs.{
  GoMap, lookup, insert, erase, lookup-insert, lookup-erase,
}

-- A choice that is known, inside an equation.
chosen {ℓ} : {A : Type ℓ} (b : Bool) (x y : A) → b ≡ true → (if b then x else y) ≡ x
chosen b x y t = rw t refl

other {ℓ} : {A : Type ℓ} (b : Bool) (x y : A) → b ≡ false → (if b then x else y) ≡ y
other b x y f = rw f refl

module _ {ℓ} {K : Type 0} {V : Type ℓ} ⦃e : Eq K⦄ where
  pub lookup-insert_self : (k : K) (v : V) (m : GoMap K V) → lookup k (insert k v m) ≡ some v
  lookup-insert_self k v m = rw (lookup-insert k k v m, ==_refl k) refl

  pub lookup-insert_other :
      (k j : K) (v : V) (m : GoMap K V) → k ≢ j → lookup j (insert k v m) ≡ lookup j m
  lookup-insert_other k j v m ne = rw (lookup-insert k j v m, not-== k j ne) refl

  pub lookup-erase_self : (k : K) (m : GoMap K V) → lookup k (erase k m) ≡ none
  lookup-erase_self k m = rw (lookup-erase k k m, ==_refl k) refl

  pub lookup-erase_other : (k j : K) (m : GoMap K V) → k ≢ j → lookup j (erase k m) ≡ lookup j m
  lookup-erase_other k j m ne = rw (lookup-erase k j m, not-== k j ne) refl

  pub insert-cases :
      (k j : K) (v w : V) (m : GoMap K V)
      → lookup j (insert k v m) ≡ some w
      → ((k ≡ j) × (v ≡ w)) ⊎ ((k ≢ j) × (lookup j m ≡ some w))
  insert-cases k j v w m h = elim (Bool-cases (k == j)) [
    | inl t ↦ inl (
      (e.same_iff k j).0 t,
      cc (sym (chosen (k == j) (some v) (lookup j m) t) ∙ sym (lookup-insert k j v m) ∙ h),
    )
    | inr f ↦ inr (
      (λ p. cc ((e.same_iff k j).1 p, f)),
      sym (other (k == j) (some v) (lookup j m) f) ∙ sym (lookup-insert k j v m) ∙ h,
    )
  ]

  pub erase-cases :
      (k j : K) (w : V) (m : GoMap K V)
      → lookup j (erase k m) ≡ some w
      → (k ≢ j) × (lookup j m ≡ some w)
  erase-cases k j w m h = elim (Bool-cases (k == j)) [
    | inl t ↦ absurd cc (sym (chosen (k == j) none (lookup j m) t) ∙ sym (lookup-erase k j m) ∙ h)
    | inr f ↦ (
      (λ p. cc ((e.same_iff k j).1 p, f)),
      sym (other (k == j) none (lookup j m) f) ∙ sym (lookup-erase k j m) ∙ h,
    )
  ]
