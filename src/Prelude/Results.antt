-- ===== src/Prelude/Results.antt =====
-- Outcomes of Go code: a panic, and the pair of a value and an `error`.
use mathlib.Core.Path.{◌≡◌, refl}
use mathlib.Core.Logic.{◌⊎◌, inl, inr}

-- A computation that may panic.
pub data Go {ℓ} (A : Type ℓ) : Type ℓ where
  ok : A → Go A
  panic : Go A

infixl 5 ◌>>=◌
abbrev pub ◌>>=◌ {ℓ κ} : {A : Type ℓ} {B : Type κ} → Go A → (A → Go B) → Go B
ok a >>= f = f a
panic >>= f = panic

-- A function that returns `(value, error)`: the value, or what went wrong.
pub data Result {ℓ} (E : Type 0) (A : Type ℓ) : Type ℓ where
  value : A → Result E A
  fail : E → Result E A

pub ok_injective {ℓ} : {A : Type ℓ} {a b : A} → ok a ≡ ok b → a ≡ b
ok_injective e = cc

pub Result-cases {ℓ} :
    {E : Type 0} {A : Type ℓ} (r : Result E A)
    → ((a : A) × (r ≡ value a)) ⊎ ((e : E) × (r ≡ fail e))
Result-cases (value a) = inl (a, refl)
Result-cases (fail e) = inr (e, refl)

pub value_injective {ℓ} :
    {E : Type 0} {A : Type ℓ} {a b : A} → ◌≡◌ {A = Result E A} (value a) (value b) → a ≡ b
value_injective e = cc

pub fail_injective {ℓ} :
    {E : Type 0} {A : Type ℓ} {d e : E} → ◌≡◌ {A = Result E A} (fail d) (fail e) → d ≡ e
fail_injective e = cc
