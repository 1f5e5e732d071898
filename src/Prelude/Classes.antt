-- ===== src/Prelude/Classes.antt =====
-- Go's `==` on the types whose values the program compares.
use Prim.Native.String.{String}
use Prim.Native.Nat.{ℕ}
use mathlib.Core.Bool.{Bool, true, false}
use mathlib.Core.Path.{◌≡◌, refl}
use mathlib.Core.Logic.{◌↔◌, ◌≢◌, inl, inr}
use text.Mathlib.TextEquality.{eq_iff}
use text.Mathlib.Text.{◌==◌ as text_beq}
use steampipe_postgres_fdw.Prelude.Tests.{nat_beq, nat_beq_iff, Bool-cases}

-- A comparable type: a test, and that it decides equality.
pub record Eq {ℓ} (A : Type ℓ) : Type ℓ where
  pub same : A → A → Bool
  pub same_iff : (x y : A) → (same x y ≡ true) ↔ (x ≡ y)

infix 50 ◌==◌
instance abbrev pub string_eq : Eq String
string_eq = record { same = text_beq; same_iff = eq_iff }

abbrev pub ◌==◌ {ℓ} : {T : Type ℓ} ⦃eq : Eq T⦄ (x y : T) → Bool
◌==◌ ⦃eq⦄ x y = eq.same x y

instance abbrev pub nat_eq : Eq ℕ
nat_eq = record { same = nat_beq; same_iff = nat_beq_iff }

module _ {ℓ} {T : Type ℓ} ⦃eq : Eq T⦄ where
  pub ==_iff : (x y : T) → ((x == y) ≡ true) ↔ (x ≡ y)
  ==_iff x y = eq.same_iff x y

  pub ==_refl : (x : T) → (x == x) ≡ true
  ==_refl x = (eq.same_iff x x).1 refl

  pub not-== : (x y : T) → x ≢ y → (x == y) ≡ false
  not-== x y ne = elim (Bool-cases (x == y)) [
    | inl t ↦ absurd (ne ((eq.same_iff x y).0 t))
    | inr f ↦ f
  ]
