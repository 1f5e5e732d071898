-- ===== src/Hub/Quals/Grouping.antt =====
-- hub/hub_quals.go: the qual map holds the quals of each column, in order.
use mathlib.Core.List.{append-nil, append_assoc}
use steampipe_postgres_fdw.Prelude.{
  String, Option, none, some, List, [], ◌∷◌, ◌++◌, ◌≡◌, refl, sym, ◌∙◌, string_eq, ◌==◌, keep,
  Bool-cases, ==_iff, inl, inr, ap,
}
use steampipe_postgres_fdw.Prelude.GoMap.{GoMap, lookup, insert, lookup-insert}
use steampipe_postgres_fdw.Proto.{Qual}
use steampipe_postgres_fdw.Hub.Quals.Defs.{append_qual, build_loop, build_qual_map}

-- The quals that are not nil.
abbrev pub present : List (Option Qual) → List Qual
present [] = []
present (none ∷ qs) = present qs
present (some q ∷ qs) = q ∷ present qs

-- The quals on column `c`, in their order.
abbrev pub quals_on : String → List (Option Qual) → List Qual
quals_on c qs = keep (λ q. q.field_name == c) (present qs)

abbrev pub nonempty : List Qual → Option (List Qual)
nonempty [] = none
nonempty (q ∷ qs) = some (q ∷ qs)

abbrev extend : Option (List Qual) → List Qual → Option (List Qual)
extend none qs = nonempty qs
extend (some ps) qs = some (ps ++ qs)

extend-append_qual :
    (o : Option (List Qual)) (q : Qual) (qs : List Qual)
    → extend (some (append_qual o q)) qs ≡ extend o (q ∷ qs)
extend-append_qual none q qs = refl
extend-append_qual (some ps) q qs = ap some (append_assoc ps (q ∷ []) qs)

extend-nil : (o : Option (List Qual)) → extend o [] ≡ o
extend-nil none = refl
extend-nil (some ps) = ap some (append-nil ps)

lookup-build_loop :
    (c : String) (m : GoMap String (List Qual)) (qs : List (Option Qual))
    → lookup c (build_loop m qs) ≡ extend (lookup c m) (quals_on c qs)
unfolding build_loop keep
lookup-build_loop c m [] = sym (extend-nil (lookup c m))
lookup-build_loop c m (none ∷ qs) = lookup-build_loop c m qs
lookup-build_loop c m (some q ∷ qs) =
    lookup-build_loop c (insert q.field_name (append_qual (lookup q.field_name m) q) m) qs
    ∙ rw lookup-insert (elim (Bool-cases (q.field_name == c)) [
      | inl y ↦ rw y (
          ap (λ f. extend (some (append_qual (lookup f m) q)) (quals_on c qs))
            ((==_iff q.field_name c).0 y)
          ∙ extend-append_qual (lookup c m) q (quals_on c qs))
      | inr n ↦ rw n refl
    ])

-- The entry of a column in the qual map is the list of the quals on that column, in their order,
-- nil quals left out; a column with no qual has no entry.
pub lookup-build_qual_map :
    (c : String) (quals : List (Option Qual))
    → lookup c (build_qual_map quals) ≡ nonempty (quals_on c quals)
unfolding build_qual_map lookup
lookup-build_qual_map c quals = lookup-build_loop c [] quals
