-- ===== src/Prelude/GoMap/Defs.antt =====
-- Go's `map[K]V`: an association list in which a write replaces the entry of its key.
-- A range over a map visits the entries in the order of the list; Go leaves that order open, so
-- theorems about such loops are stated for every list.
use mathlib.Core.Path.{◌≡◌, refl}
use mathlib.Core.Option.{Option, none, some}
use mathlib.Core.List.{List, [], ◌∷◌}
use native.Mathlib.Omega.{arith}
use steampipe_postgres_fdw.Prelude.Tests.{if◌then◌else◌}
use steampipe_postgres_fdw.Prelude.Classes.{Eq, ◌==◌}

abbrev pub GoMap {ℓ} : Type 0 → Type ℓ → Type ℓ
GoMap K V = List (K × V)

module _ {ℓ} {K : Type 0} {V : Type ℓ} ⦃e : Eq K⦄ where
  -- delete(m, key)
  unfoldable pub erase : K → GoMap K V → GoMap K V
  erase key [] = []
  erase key ((have, old) ∷ rest) =
      let erased = erase key rest in if have == key then erased else (have, old) ∷ erased

  -- m[key] = new
  unfoldable pub insert : K → V → GoMap K V → GoMap K V
  insert key new [] = (key, new) ∷ []
  insert key new ((have, old) ∷ rest) =
      let more = insert key new rest in
      if have == key then (have, new) ∷ rest else (have, old) ∷ more

  -- old, ok := m[key]
  unfoldable pub lookup : K → GoMap K V → Option V
  lookup key [] = none
  lookup key ((have, old) ∷ rest) =
      let more = lookup key rest in if have == key then some old else more

  pub lookup-erase :
      (gone j : K) (m : GoMap K V)
      → lookup j (erase gone m) ≡ (if gone == j then none else lookup j m)
  unfolding lookup erase
  lookup-erase gone j [] = ground arith
  lookup-erase gone j ((i, w) ∷ m) =
      ground (arith, e.same_iff gone j, e.same_iff i gone, e.same_iff i j, lookup-erase gone j m)

  pub lookup-insert :
      (key j : K) (new : V) (m : GoMap K V)
      → lookup j (insert key new m) ≡ (if key == j then some new else lookup j m)
  unfolding lookup insert
  lookup-insert key j new [] = refl
  lookup-insert key j new ((i, w) ∷ m) =
      ground (arith, e.same_iff key j, e.same_iff i key, e.same_iff i j, lookup-insert key j new m)
