-- ===== src/Prelude/Members.antt =====
-- Membership in a list as a Boolean test (`slices.Contains`) and as a predicate by recursion.
use mathlib.Core.Path.{◌≡◌, refl}
use mathlib.Core.Logic.{◌⊎◌, inl, inr}
use mathlib.Core.Bool.{not, ◌&&◌, Bool, true, false, ◌||◌}
use mathlib.Core.List.{List, [], ◌∷◌, ◌++◌}
use native.Mathlib.Omega.{arith}
use steampipe_postgres_fdw.Prelude.Tests.{Bool-cases}
use steampipe_postgres_fdw.Prelude.Classes.{Eq, ◌==◌}

-- `P` of every element, as a tuple.
abbrev pub All {ℓ κ} : {T : Type ℓ} (P : T → Type κ) → List T → Type κ
All P [] = Unit
All P (first ∷ others) = P first × All P others

-- `In a xs` says where `a` stands, by equations that the tactics read.
abbrev pub In : {A : Type 0} → A → List A → Type 0
In a [] = ⊥
In a (x ∷ xs) = (x ≡ a) ⊎ In a xs

module _ {A : Type 0} where
  pub In-append_left : (a : A) (xs ys : List A) → In a xs → In a (xs ++ ys)
  In-append_left a [] ys h = elim h [ ]
  In-append_left a (x ∷ xs) ys (inl e) = inl e
  In-append_left a (x ∷ xs) ys (inr h) = inr (In-append_left a xs ys h)

  pub In-append_right : (a : A) (xs ys : List A) → In a ys → In a (xs ++ ys)
  In-append_right a [] ys h = h
  In-append_right a (x ∷ xs) ys h = inr (In-append_right a xs ys h)

  pub In-append_split : (a : A) (xs ys : List A) → In a (xs ++ ys) → In a xs ⊎ In a ys
  In-append_split a [] ys h = inr h
  In-append_split a (x ∷ xs) ys (inl e) = inl (inl e)
  In-append_split a (x ∷ xs) ys (inr h) = elim (In-append_split a xs ys h) [
    | inl l ↦ inl (inr l)
    | inr r ↦ inr r
  ]

  pub All-imp {κ μ} :
      (P : A → Type κ) (Q : A → Type μ) (f : (a : A) → P a → Q a) (xs : List A)
      → All P xs
      → All Q xs
  All-imp P Q f [] h = tt
  All-imp P Q f (x ∷ xs) h = (f x h.0, All-imp P Q f xs h.1)

  pub All-append {κ} :
      (P : A → Type κ) (front back : List A) → All P front → All P back → All P (front ++ back)
  All-append P [] back f b = b
  All-append P (x ∷ front) back (p, f) b = (p, All-append P front back f b)

  pub All-tabulate {κ} : (P : A → Type κ) (xs : List A) → ((a : A) → In a xs → P a) → All P xs
  All-tabulate P [] f = tt
  All-tabulate P (x ∷ xs) f = (f x (inl refl), All-tabulate P xs (λ a m. f a (inr m)))

module _ {A : Type 0} ⦃eq : Eq A⦄ where
  -- slices.Contains
  unfoldable pub contains : List A → A → Bool
  contains [] v = false
  contains (x ∷ xs) v = x == v || contains xs v

  pub In→contains : (xs : List A) (v : A) → In v xs → contains xs v ≡ true
  unfolding contains
  In→contains [] v m = elim m [ ]
  In→contains (x ∷ xs) v (inl p) = ground (arith, eq.same_iff x v)
  In→contains (x ∷ xs) v (inr m) = ground (arith, In→contains xs v m)

  pub contains→In : (xs : List A) (v : A) → contains xs v ≡ true → In v xs
  unfolding contains
  contains→In [] v t = cc
  contains→In (x ∷ xs) v t = elim (Bool-cases (x == v)) [
    | inl y ↦ inl ((eq.same_iff x v).0 y)
    | inr n ↦ inr (contains→In xs v (ground arith))
  ]

  pub contains-append :
      (xs ys : List A) (v : A) → contains (xs ++ ys) v ≡ (contains xs v || contains ys v)
  unfolding contains
  contains-append [] ys v = refl
  contains-append (x ∷ xs) ys v = ground (arith, contains-append xs ys v)

-- No element stands twice.
abbrev pub Distinct : {A : Type 0} → List A → Type 0
Distinct [] = Unit
Distinct (x ∷ xs) = ¬ In x xs × Distinct xs

-- Distinctness of a concrete list, by evaluation.
module _ {A : Type 0} ⦃e : Eq A⦄ where
  unfoldable pub all_distinct : List A → Bool
  unfolding contains
  all_distinct [] = true
  all_distinct (x ∷ xs) = not (contains xs x) && all_distinct xs

  pub all_distinct→Distinct : (xs : List A) → all_distinct xs ≡ true → Distinct xs
  unfolding all_distinct
  all_distinct→Distinct [] h = tt
  all_distinct→Distinct (x ∷ xs) h =
      ((λ m. absurd (ground (arith, In→contains xs x m))), all_distinct→Distinct xs (ground arith))
