-- ===== src/PathKeys/Costs.antt =====
-- types/pathkeys.go: which path keys are made from a list of column sets, and at which cost.
use steampipe_postgres_fdw.Prelude.{
  ℕ, ◌*◌, String, Bool, true, false, not, List, [], ◌∷◌, if◌then◌else◌, contains, contains→In,
  In→contains, string_eq, ◌≡◌, ◌∙◌, ◌⊎◌, ◌↔◌, refl, Bool-cases, inl, inr, In, In-append_left,
  In-append_right, In-append_split, sym, ap, subst,
}
use steampipe_postgres_fdw.PathKeys.Defs.{PathKey, with_other_columns, column_paths_to_path_keys}

-- A column set alone, and with one more column.
abbrev pub alone : List String → ℕ → PathKey
alone s cost = record { column_names = s; rows = cost * 2 }

abbrev pub extended : String → List String → ℕ → PathKey
extended c s cost = record { column_names = c ∷ s; rows = cost }

-- `p` is `s` with a column of the table that `s` lacks.
abbrev pub Extends : List String → List String → ℕ → PathKey → Type 0
Extends s all cost p = (c : String) × In c all × (¬ In c s) × (p ≡ extended c s cost)

-- `p` is made from the set `s`: alone at twice the cost, or with a column that `s` lacks.
abbrev pub MadeFrom : List String → List String → ℕ → PathKey → Type 0
MadeFrom s all cost p = (p ≡ alone s cost) ⊎ Extends s all cost p

with_other_columns→ :
    (s all : List String) (cost : ℕ) (p : PathKey)
    → In p (with_other_columns s all cost)
    → Extends s all cost p
unfolding with_other_columns
with_other_columns→ s [] cost p h = elim h [ ]
with_other_columns→ s (c ∷ cs) cost p h = go (contains s c) refl (with_other_columns→ s cs cost p) h
  where
    more : Extends s cs cost p → Extends s (c ∷ cs) cost p
    more (d, m, n, e) = (d, inr m, n, e)

    go :
        (b : Bool)
        → contains s c ≡ b
        → (In p (with_other_columns s cs cost) → Extends s cs cost p)
        → In p (
            if not b
            then extended c s cost ∷ with_other_columns s cs cost
            else with_other_columns s cs cost)
        → Extends s (c ∷ cs) cost p
    go true e ih m = more (ih m)
    go false e ih (inl q) = (c, inl refl, (λ m. cc (In→contains s c m)), sym q)
    go false e ih (inr m) = more (ih m)

with_other_columns← :
    (s all : List String) (cost : ℕ) (c : String)
    → In c all
    → ¬ In c s
    → In (extended c s cost) (with_other_columns s all cost)
unfolding with_other_columns
with_other_columns← s [] cost c m n = elim m [ ]
with_other_columns← s (d ∷ cs) cost c (inl q) n = elim (Bool-cases (contains s d)) [
  | inl y ↦ absurd (n (subst (λ x. In x s) q (contains→In s d y)))
  | inr f ↦ rw f (inl (ap (λ x. extended x s cost) q))
]
with_other_columns← s (d ∷ cs) cost c (inr m) n =
    let rest = with_other_columns← s cs cost c m n in
    elim (Bool-cases (contains s d)) [ inl y ↦ rw y rest | inr f ↦ rw f (inr rest) ]

made→ :
    (paths : List (List String)) (all : List String) (cost : ℕ) (p : PathKey)
    → In p (column_paths_to_path_keys paths all cost)
    → (s : List String) × In s paths × MadeFrom s all cost p
unfolding column_paths_to_path_keys
made→ [] all cost p h = elim h [ ]
made→ (s ∷ ss) all cost p (inl e) = (s, inl refl, inl (sym e))
made→ (s ∷ ss) all cost p (inr h) = elim (In-append_split p (with_other_columns s all cost) _ h) [
  | inl m ↦ (s, inl refl, inr (with_other_columns→ s all cost p m))
  | inr m ↦ let (t, n, f) = made→ ss all cost p m in (t, inr n, f)
]

made← :
    (paths : List (List String)) (all : List String) (cost : ℕ) (p : PathKey) (s : List String)
    → In s paths
    → MadeFrom s all cost p
    → In p (column_paths_to_path_keys paths all cost)
unfolding column_paths_to_path_keys
made← [] all cost p s m f = elim m [ ]
made← (t ∷ ts) all cost p s (inr m) f =
    inr (In-append_right p (with_other_columns t all cost) _ (made← ts all cost p s m f))
made← (t ∷ ts) all cost p s (inl q) (inl e) = inl (ap (λ x. alone x cost) q ∙ sym e)
made← (t ∷ ts) all cost p s (inl q) (inr (c, m, n, e)) = inr (
    In-append_left p (with_other_columns t all cost) _ (
      subst (λ k. In k (with_other_columns t all cost)) (ap (λ x. extended c x cost) q ∙ sym e)
        (with_other_columns← t all cost c m (λ x. n (subst (λ y. In c y) q x)))))

-- The path keys made from a list of column sets are, for each set, the set alone at twice the
-- base cost, and the set with each column of the table that it lacks at the base cost; all of
-- those and no others.
pub column_paths_to_path_keys_iff :
    (paths : List (List String)) (all : List String) (cost : ℕ) (p : PathKey)
    → In p (column_paths_to_path_keys paths all cost)
      ↔ ((s : List String) × In s paths × MadeFrom s all cost p)
column_paths_to_path_keys_iff paths all cost p =
    (made→ paths all cost p, λ (s, m, f). made← paths all cost p s m f)
