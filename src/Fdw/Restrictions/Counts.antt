-- ===== src/Fdw/Restrictions/Counts.antt =====
-- restrictionsToQuals over the list of restrictions.
use steampipe_postgres_fdw.Prelude.{
  length, nat_eq, string_eq, All, ℕ, suc, ◌+◌, ◌≡◌, refl, sym, ap, ◌∙◌, subst, true, Option, none,
  some, List, [], ◌∷◌, ◌++◌, arith,
}
use mathlib.Core.List.{append_assoc, append-nil}
use steampipe_postgres_fdw.Proto.{Qual}
use steampipe_postgres_fdw.Fdw.Restrictions.Nodes.{Environment, ConversionInfos, Node}
use steampipe_postgres_fdw.Fdw.Restrictions.Defs.{
  single_restriction_to_qual, restrictions_loop, restrictions_to_quals, collect_qual,
}
use steampipe_postgres_fdw.Fdw.Restrictions.Meaning.{
  Row, World, Documented, NamesColumns, keeps, truth,
}
use steampipe_postgres_fdw.Fdw.Restrictions.Supported.{Supported}
use steampipe_postgres_fdw.Fdw.Restrictions.Kept.{restriction_keeps_rows}

-- The quals of the restrictions that have one.
abbrev found : Option Qual → List Qual → List Qual
found (some q) qs = q ∷ qs
found none qs = qs

abbrev missed : Option Qual → ℕ
missed (some q) = 0
missed none = 1

module _ (env : Environment) (infos : ConversionInfos) (base : ℕ) where
  abbrev translated : List Node → List Qual
  translated [] = []
  translated (n ∷ ns) = found (single_restriction_to_qual env infos base n) (translated ns)

  abbrev untranslated : List Node → ℕ
  untranslated [] = 0
  untranslated (n ∷ ns) = missed (single_restriction_to_qual env infos base n) + untranslated ns

  step :
      (o : Option Qual) (acc : List Qual × ℕ) (qs : List Qual) (k : ℕ)
      → ◌≡◌ {A = List Qual × ℕ}
          ((collect_qual o acc).0 ++ qs, (collect_qual o acc).1 + k)
          (acc.0 ++ found o qs, acc.1 + (missed o + k))
  step (some q) acc qs k = λ i.
      (append_assoc acc.0 (q ∷ []) qs i, (let e : acc.1 + k ≡ acc.1 + (0 + k) = omega arith in e) i)
  step none acc qs k =
      λ i. (acc.0 ++ qs, (let e : (acc.1 + 1) + k ≡ acc.1 + (1 + k) = omega arith in e) i)

  restrictions_loop-translated :
      (ns : List Node) (acc : List Qual × ℕ)
      → restrictions_loop env infos base ns acc ≡ (acc.0 ++ translated ns, acc.1 + untranslated ns)
  unfolding restrictions_loop
  restrictions_loop-translated [] acc =
      λ i. (sym (append-nil acc.0) i, (let e : acc.1 ≡ acc.1 + 0 = omega arith in e) i)
  restrictions_loop-translated (n ∷ ns) acc =
      restrictions_loop-translated ns
        (collect_qual (single_restriction_to_qual env infos base n) acc)
      ∙ step (single_restriction_to_qual env infos base n) acc (translated ns) (untranslated ns)

  restrictions_to_quals-translated :
      (ns : List Node) → restrictions_to_quals env infos base ns ≡ (translated ns, untranslated ns)
  unfolding restrictions_to_quals
  restrictions_to_quals-translated ns =
      restrictions_loop-translated ns ([], 0)
      ∙ (λ i. (translated ns, (let e : 0 + untranslated ns ≡ untranslated ns = omega arith in e) i))

  counted :
      (o : Option Qual) (qs : List Qual) (k n : ℕ)
      → length qs + k ≡ n
      → length (found o qs) + (missed o + k) ≡ suc n
  counted (some q) qs k n e = omega arith
  counted none qs k n e = omega arith

  translated-count : (ns : List Node) → length (translated ns) + untranslated ns ≡ length ns
  translated-count [] = omega arith
  translated-count (n ∷ ns) =
      counted (single_restriction_to_qual env infos base n) (translated ns) (untranslated ns)
        (length ns) (translated-count ns)

  missed-zero : (o : Option Qual) (k : ℕ) → missed o + k ≡ 0 → ((q : Qual) × (o ≡ some q)) × (k ≡ 0)
  missed-zero (some q) k e = ((q, refl), omega arith)
  missed-zero none k e = absurd (omega arith)

  each_translated :
      (ns : List Node)
      → untranslated ns ≡ 0
      → All (λ n. (q : Qual) × (single_restriction_to_qual env infos base n ≡ some q)) ns
  each_translated [] e = tt
  each_translated (n ∷ ns) e =
      let k = missed-zero (single_restriction_to_qual env infos base n) (untranslated ns) e in
      (k.0, each_translated ns k.1)

  -- Each restriction has a qual, if none is counted as unhandled.
  pub none_unhandled :
      (ns : List Node)
      → (restrictions_to_quals env infos base ns).1 ≡ 0
      → All (λ n. (q : Qual) × (single_restriction_to_qual env infos base n ≡ some q)) ns
  none_unhandled ns e =
      each_translated ns (sym (ap (λ r. r.1) (restrictions_to_quals-translated ns)) ∙ e)

module _ {env : Environment} (w : World env) (infos : ConversionInfos) (base : ℕ)
    (doc : Documented w base) (names : NamesColumns w infos) (row : Row) where
  found-keeps :
      (n : Node) (o : Option Qual) (qs : List Qual)
      → single_restriction_to_qual env infos base n ≡ o
      → Supported w infos base n
      → truth w base row n ≡ some true
      → All (λ q. keeps w row q ≡ true) qs
      → All (λ q. keeps w row q ≡ true) (found o qs)
  found-keeps n none qs e h t all = all
  found-keeps n (some q) qs e h t all =
      (restriction_keeps_rows w infos base doc names row n q h e t, all)

  translated-keeps :
      (ns : List Node)
      → All (Supported w infos base) ns
      → All (λ n. truth w base row n ≡ some true) ns
      → All (λ q. keeps w row q ≡ true) (translated env infos base ns)
  translated-keeps [] h t = tt
  translated-keeps (n ∷ ns) h t =
      found-keeps n (single_restriction_to_qual env infos base n) (translated env infos base ns)
        refl h.0 t.0 (translated-keeps ns h.1 t.1)

-- A row that all restrictions accept is kept by every qual of restrictionsToQuals, and each
-- restriction either has a qual or is counted as unhandled: for Supported restrictions, where the
-- conversion infos name the columns of the relation, and Postgres and the plugin do what is
-- documented of them.
pub scan_keeps_rows :
    {env : Environment} (w : World env) (infos : ConversionInfos) (base : ℕ)
    → Documented w base
    → NamesColumns w infos
    → (row : Row) (restrictions : List Node) → All (Supported w infos base) restrictions
    → All (λ n. truth w base row n ≡ some true) restrictions
    → All (λ q. keeps w row q ≡ true) (restrictions_to_quals env infos base restrictions).0
      × (length (restrictions_to_quals env infos base restrictions).0
            + (restrictions_to_quals env infos base restrictions).1
          ≡ length restrictions)
scan_keeps_rows {env} w infos base doc names row ns h t =
    subst (λ r. All (λ q. keeps w row q ≡ true) r.0 × (length r.0 + r.1 ≡ length ns))
      (sym (restrictions_to_quals-translated env infos base ns))
      (translated-keeps w infos base doc names row ns h t, translated-count env infos base ns)
