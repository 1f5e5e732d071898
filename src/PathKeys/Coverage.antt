-- ===== src/PathKeys/Coverage.antt =====
-- types/pathkeys.go: every path key of a table names the columns that the plugin insists on.
use steampipe_postgres_fdw.Prelude.{
  ℕ, String, List, [], ◌∷◌, ◌++◌, if◌then◌else◌, ltb, length, ltb-zero-suc, contains, Go, ok, panic,
  string_eq, ◌≡◌, ◌∙◌, ◌⊎◌, refl, arith, Bool-cases, inl, inr, ◌>>=◌, In, In-append_left, All,
  All-append, All-imp, All-tabulate, sym, subst, ok_injective,
}
use mathlib.Core.List.{append-nil, append_assoc}
use steampipe_postgres_fdw.Proto.{Require, required, optional, any_of, other, KeyColumn}
use steampipe_postgres_fdw.PathKeys.Defs.{
  PathKey, Keys, collect_one, collect, any_of_paths, required_column_paths, with_optional,
  optional_loop, key_columns_to_column_path, with_other_columns, column_paths_to_path_keys,
  key_columns_to_path_keys, remove_key_columns_from_all_columns,
}

abbrev is_required : Require → List String → List String → List String
is_required required hit miss = hit
is_required _ hit miss = miss

abbrev is_any_of : Require → List String → List String → List String
is_any_of any_of hit miss = hit
is_any_of _ hit miss = miss

-- The names of the key columns that are declared required, and any-of.
abbrev pub required_names : List KeyColumn → List String
required_names [] = []
required_names (k ∷ ks) = is_required k.require (k.name ∷ required_names ks) (required_names ks)

abbrev pub any_of_names : List KeyColumn → List String
any_of_names [] = []
any_of_names (k ∷ ks) = is_any_of k.require (k.name ∷ any_of_names ks) (any_of_names ks)

-- `columns` holds every required column, and an any-of column if there are any.
pub record Covers (required_keys any_of_keys columns : List String) : Type 0 where
  pub has_required : All (λ c. In c columns) required_keys
  pub has_any_of : (any_of_keys ≡ []) ⊎ ((a : String) × In a any_of_keys × In a columns)

required_keys-collect :
    (k : Keys) (cs : List KeyColumn)
    → (collect k cs).required_keys ≡ k.required_keys ++ required_names cs
unfolding collect
required_keys-collect k [] = sym (append-nil k.required_keys)
required_keys-collect k (c ∷ cs) =
    required_keys-collect (collect_one c.require c.name k) cs ∙ go c.require
  where
    go :
        (r : Require)
        → (collect_one r c.name k).required_keys ++ required_names cs
          ≡ k.required_keys ++ is_required r (c.name ∷ required_names cs) (required_names cs)
    go required = append_assoc k.required_keys (c.name ∷ []) (required_names cs)
    go optional = refl
    go any_of = refl
    go (other s) = refl

any_of_keys-collect :
    (k : Keys) (cs : List KeyColumn) → (collect k cs).any_of_keys ≡ k.any_of_keys ++ any_of_names cs
unfolding collect
any_of_keys-collect k [] = sym (append-nil k.any_of_keys)
any_of_keys-collect k (c ∷ cs) =
    any_of_keys-collect (collect_one c.require c.name k) cs ∙ go c.require
  where
    go :
        (r : Require)
        → (collect_one r c.name k).any_of_keys ++ any_of_names cs
          ≡ k.any_of_keys ++ is_any_of r (c.name ∷ any_of_names cs) (any_of_names cs)
    go any_of = append_assoc k.any_of_keys (c.name ∷ []) (any_of_names cs)
    go optional = refl
    go required = refl
    go (other s) = refl

All-In-cons : (cs p : List String) (x : String) → All (λ c. In c p) cs → All (λ c. In c (x ∷ p)) cs
All-In-cons cs p x = All-imp _ _ (λ a m. inr m) cs

All-In-refl : (cs : List String) → All (λ c. In c cs) cs
All-In-refl cs = All-tabulate _ cs (λ a m. m)

module _ (req any : List String) where
  Covers-cons : (x : String) (p : List String) → Covers req any p → Covers req any (x ∷ p)
  Covers-cons x p h = record {
    has_required = All-In-cons req p x h.has_required;
    has_any_of = elim h.has_any_of [ inl e ↦ inl e | inr (a, m, n) ↦ inr (a, m, inr n) ];
  }

  Covers-append : (p q : List String) → Covers req any p → Covers req any (p ++ q)
  Covers-append p q h = record {
    has_required = All-imp _ _ (λ a m. In-append_left a p q m) req h.has_required;
    has_any_of = elim h.has_any_of [
      | inl e ↦ inl e
      | inr (a, m, n) ↦ inr (a, m, In-append_left a p q n)
    ];
  }

  any_of_paths-Covers :
      (rest : List String)
      → ((a : String) → In a rest → In a any)
      → All (Covers req any) (any_of_paths rest req)
  unfolding any_of_paths
  any_of_paths-Covers [] sub = tt
  any_of_paths-Covers (a ∷ rest) sub = (
    record {
      has_required = All-In-cons req req a (All-In-refl req);
      has_any_of = inr (a, sub a (inl refl), inl refl);
    },
    any_of_paths-Covers rest (λ b m. sub b (inr m)),
  )

  with_optional-Covers :
      (ps : List (List String)) (col : String)
      → All (Covers req any) ps
      → All (Covers req any) (with_optional ps col)
  unfolding with_optional
  with_optional-Covers [] col h = tt
  with_optional-Covers (p ∷ ps) col h =
      (Covers-append p (col ∷ []) h.0, with_optional-Covers ps col h.1)

  -- No path is needed where nothing is required and there is no any-of key.
  vacuous : (p : List String) → req ≡ [] → any ≡ [] → Covers req any p
  vacuous p e f = record { has_required = rw e tt; has_any_of = inl f }

  added-Covers :
      (paths : List (List String)) (col : String)
      → All (Covers req any) paths
      → (paths ≡ [] → (req ≡ []) × (any ≡ []))
      → All
          (Covers req any)
          (if ltb 0 (length paths) then with_optional paths col else (col ∷ []) ∷ [])
  added-Covers [] col h free = (vacuous (col ∷ []) (free refl).0 (free refl).1, tt)
  added-Covers (p ∷ ps) col h free =
      rw (ltb-zero-suc (length ps)) (with_optional-Covers (p ∷ ps) col h)

  optional_loop-Covers :
      (paths : List (List String)) (cols : List String) (found : List (List String))
      → All (Covers req any) paths
      → (paths ≡ [] → (req ≡ []) × (any ≡ []))
      → All (Covers req any) found
      → All (Covers req any) (optional_loop paths cols found)
  unfolding optional_loop
  optional_loop-Covers paths [] found h free f = f
  optional_loop-Covers paths (col ∷ cols) found h free f =
      optional_loop-Covers paths cols _ h free
        (All-append (Covers req any) found _ f (added-Covers paths col h free))

  with_other_columns-Covers :
      (s : List String) (all : List String) (cost : ℕ)
      → Covers req any s
      → All (λ p. Covers req any p.column_names) (with_other_columns s all cost)
  unfolding with_other_columns
  with_other_columns-Covers s [] cost h = tt
  with_other_columns-Covers s (c ∷ cs) cost h = elim (Bool-cases (contains s c)) [
    | inl y ↦ rw y (with_other_columns-Covers s cs cost h)
    | inr n ↦ rw n (Covers-cons c s h, with_other_columns-Covers s cs cost h)
  ]

  pub column_paths_to_path_keys-Covers :
      (paths : List (List String)) (all : List String) (cost : ℕ)
      → All (Covers req any) paths
      → All (λ p. Covers req any p.column_names) (column_paths_to_path_keys paths all cost)
  unfolding column_paths_to_path_keys
  column_paths_to_path_keys-Covers [] all cost h = tt
  column_paths_to_path_keys-Covers (s ∷ ss) all cost h = (
    h.0,
    All-append _ (with_other_columns s all cost) _ (with_other_columns-Covers s all cost h.0)
        (column_paths_to_path_keys-Covers ss all cost h.1),
  )

required_paths-Covers :
    (k : Keys) → All (Covers k.required_keys k.any_of_keys) (required_column_paths k)
unfolding required_column_paths
required_paths-Covers k = go k.any_of_keys k.required_keys
  where
    go :
        (any req : List String)
        → All (Covers req any) (
            if ltb 0 (length any)
            then any_of_paths any req
            else if ltb 0 (length req)
            then req ∷ []
            else [])
    go [] [] = tt
    go [] (r ∷ rs) =
        rw (ltb-zero-suc (length rs))
          (record { has_required = All-In-refl (r ∷ rs); has_any_of = inl refl }, tt)
    go (a ∷ any) req =
        rw (ltb-zero-suc (length any)) (any_of_paths-Covers req (a ∷ any) (a ∷ any) (λ b m. m))

required_paths-nil :
    (k : Keys) → required_column_paths k ≡ [] → (k.required_keys ≡ []) × (k.any_of_keys ≡ [])
unfolding required_column_paths
required_paths-nil k = go k.any_of_keys k.required_keys
  where
    go :
        (any req : List String)
        → (if ltb 0 (length any)
            then any_of_paths any req
            else if ltb 0 (length req)
            then req ∷ []
            else [])
          ≡ []
        → (req ≡ []) × (any ≡ [])
    go [] [] e = (refl, refl)
    go [] (r ∷ rs) e = absurd (ground (arith, ltb-zero-suc (length rs)))
    go (a ∷ any) req e = absurd (ground (arith, ltb-zero-suc (length any)))

column_path-Covers :
    (keys : List KeyColumn)
    → All (Covers (required_names keys) (any_of_names keys)) (key_columns_to_column_path keys).0
unfolding key_columns_to_column_path
column_path-Covers [] = tt
column_path-Covers (c ∷ cs) =
    let none : Keys = record { required_keys = []; optional_keys = []; any_of_keys = [] } in
    let k = collect none (c ∷ cs) in
    rw (← required_keys-collect none (c ∷ cs), ← any_of_keys-collect none (c ∷ cs))
      (optional_loop-Covers k.required_keys k.any_of_keys (required_column_paths k) k.optional_keys
        (required_column_paths k) (required_paths-Covers k) (required_paths-nil k)
        (required_paths-Covers k))

-- Every path key of `KeyColumnsToPathKeys` names all columns that the plugin requires and, where
-- it declares any-of columns, at least one of them: a scan that Postgres plans from a path key
-- has the quals without which the plugin refuses to list.
pub key_columns_to_path_keys-Covers :
    (keys : List KeyColumn) (all : List String) (path_keys : List PathKey)
    → key_columns_to_path_keys keys all ≡ ok path_keys
    → All (λ p. Covers (required_names keys) (any_of_names keys) p.column_names) path_keys
unfolding key_columns_to_path_keys
key_columns_to_path_keys-Covers keys all path_keys =
    go (remove_key_columns_from_all_columns keys all)
  where
    go :
        (r : Go (List String))
        → (r >>= λ others. ok (
            column_paths_to_path_keys
              (key_columns_to_column_path keys).0
              others
              (key_columns_to_column_path keys).1))
          ≡ ok path_keys
        → All (λ p. Covers (required_names keys) (any_of_names keys) p.column_names) path_keys
    go (ok others) e = subst (All _) (ok_injective e) (
        column_paths_to_path_keys-Covers (required_names keys) (any_of_names keys) _ others _
          (column_path-Covers keys))
    go panic e = cc
