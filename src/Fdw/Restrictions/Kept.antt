-- ===== src/Fdw/Restrictions/Kept.antt =====
-- A qual keeps each row that its restriction accepts, so the plugin's filter loses no row.
use steampipe_postgres_fdw.Prelude.{
  nat_eq, string_eq, ℕ, ◌≡◌, refl, ◌∙◌, ◌⊎◌, inl, inr, Bool, true, false, Option, none, some, List,
  ◌∷◌, arith,
}
use steampipe_postgres_fdw.Proto.{Qual}
use steampipe_postgres_fdw.Fdw.Restrictions.Nodes.{
  Environment, ConversionInfos, and_expr, or_expr, not_expr, Node, var, op_expr,
  scalar_array_op_expr, null_test, boolean_test, bool_expr, Args, no_args, arg,
}
use steampipe_postgres_fdw.Fdw.Restrictions.Defs.{
  and_then, bool_expr_qual, or_qual, in_qual, one_argument, single_restriction_to_qual, or_members,
}
use steampipe_postgres_fdw.Fdw.Restrictions.Meaning.{
  Row, World, Documented, NamesColumns, keeps, any_keeps, or3, not3, truth, truths,
}
use steampipe_postgres_fdw.Fdw.Restrictions.Members.{in_qual-any}
use steampipe_postgres_fdw.Fdw.Restrictions.Comparisons.{op_expr_kept, scalar_array_kept}
use steampipe_postgres_fdw.Fdw.Restrictions.Columns.{
  equals_true_kept, differs_true_kept, null_test_kept, boolean_test_kept,
}
use steampipe_postgres_fdw.Fdw.Restrictions.Supported.{IsBaseVar, Supported, AllSupported}

or3-true : (x y : Option Bool) → or3 x y ≡ some true → (x ≡ some true) ⊎ (y ≡ some true)
or3-true (some true) y e = inl refl
or3-true (some false) y e = inr e
or3-true none (some true) e = inr refl
or3-true none (some false) e = cc
or3-true none none e = cc

map_either : {A B C D : Type 0} → A ⊎ B → (A → C) → (B → D) → C ⊎ D
map_either (inl a) f g = inl (f a)
map_either (inr b) f g = inr (g b)

not3-true : (x : Option Bool) → not3 x ≡ some true → x ≡ some false
not3-true none e = cc
not3-true (some true) e = cc
not3-true (some false) e = refl

and_then_parts :
    (o : Option Qual) (rest : Option (List Qual)) (qs : List Qual)
    → and_then o rest ≡ some qs
    → (q : Qual) × (others : List Qual) × (o ≡ some q) × (rest ≡ some others) × (qs ≡ q ∷ others)
and_then_parts none rest qs e = cc
and_then_parts (some q) none qs e = cc
and_then_parts (some q) (some others) qs e = (q, others, refl, refl, ground arith)

module _ {env : Environment} (w : World env) (infos : ConversionInfos) (base : ℕ)
    (doc : Documented w base) (names : NamesColumns w infos) (row : Row) where
  not_kept :
      (n : Node) (args : Args) (members : Option (List Qual)) (q : Qual)
      → IsBaseVar base n
      → bool_expr_qual env infos not_expr n args members ≡ some q
      → truth w base row n ≡ some false
      → keeps w row q ≡ true
  unfolding bool_expr_qual
  not_kept (var rel attno) no_args members q h e t =
      differs_true_kept w infos base doc names row rel attno q h
        (rw (env.as_attno-var rel attno) at e) t
  not_kept (var rel attno) (arg m args) members q h e t =
      differs_true_kept w infos base doc names row rel attno q h
        (rw (env.as_attno-var rel attno) at e) t
  not_kept _ args members q h e t = elim h [ ]

  or_branch_parts :
      (n : Node) (args : Args) (members : Option (List Qual)) (q : Qual)
      → one_argument args ≡ false
      → bool_expr_qual env infos or_expr n args members ≡ some q
      → (qs : List Qual) × (members ≡ some qs) × (in_qual qs ≡ some q)
  unfolding bool_expr_qual or_qual
  or_branch_parts n no_args members q h e = cc
  or_branch_parts n (arg m args) none q h e = cc
  or_branch_parts n (arg m args) (some qs) q h e = (qs, refl, e)

  any_keeps-cons :
      (q : Qual) (qs : List Qual)
      → (keeps w row q ≡ true) ⊎ (any_keeps w row qs ≡ true)
      → any_keeps w row (q ∷ qs) ≡ true
  unfolding any_keeps
  any_keeps-cons q qs (inl e) = rw e refl
  any_keeps-cons q qs (inr e) = ground arith

  mutual
    unfolding single_restriction_to_qual truth Supported

    node_kept :
        (n : Node) (q : Qual)
        → Supported w infos base n
        → single_restriction_to_qual env infos base n ≡ some q
        → truth w base row n ≡ some true
        → keeps w row q ≡ true
    node_kept (var rel attno) q h e t =
        equals_true_kept w infos base doc names row rel attno q h e t
    node_kept (op_expr o f ty args) q h e t =
        op_expr_kept w infos base doc names row o args q h.0 h.1 e t
    node_kept (scalar_array_op_expr o u args) q h e t =
        scalar_array_kept w infos base doc names row o args q h.1 h.2 e (rw h.0 at t)
    node_kept (null_test b n) q h e t =
        null_test_kept w infos base doc names row b n q h e (ground arith)
    node_kept (boolean_test test n) q h e t =
        boolean_test_kept w infos base doc names row test n q h.0 h.1 e (ground arith)
    node_kept (bool_expr not_expr n args) q h e t =
        not_kept n args
          (and_then (single_restriction_to_qual env infos base n) (or_members env infos base args))
          q h e (not3-true (truth w base row n) t)
    node_kept (bool_expr and_expr n (arg m args)) q h e t = cc
    node_kept (bool_expr and_expr n no_args) q h e t = cc
    node_kept (bool_expr or_expr n args) q h e t =
        let k =
          or_branch_parts n args
            (and_then (single_restriction_to_qual env infos base n)
              (or_members env infos base args))
            q h.0 e in
        let parts =
          and_then_parts (single_restriction_to_qual env infos base n)
            (or_members env infos base args) k.0 k.1 in
        in_qual-any w base doc row k.0 q k.2
        ∙ rw parts.4 (
            any_keeps-cons parts.0 parts.1 (
              map_either (or3-true _ _ t) (node_kept n parts.0 h.1 parts.2)
                (members_kept args parts.1 h.2 parts.3)))
    node_kept _ q h e t = cc

    members_kept :
        (args : Args) (qs : List Qual)
        → AllSupported w infos base args
        → or_members env infos base args ≡ some qs
        → truths w base row or_expr args ≡ some true
        → any_keeps w row qs ≡ true
    members_kept no_args qs h e t = cc
    members_kept (arg n args) qs h e t =
        let parts =
          and_then_parts (single_restriction_to_qual env infos base n)
            (or_members env infos base args) qs e in
        rw parts.4 (
          any_keeps-cons parts.0 parts.1 (
            map_either (or3-true _ _ t) (node_kept n parts.0 h.0 parts.2)
              (members_kept args parts.1 h.1 parts.3)))

-- The plugin's filter keeps each row that the restriction accepts, for a restriction that
-- singleRestrictionToQual turns into a qual and that is Supported: where the conversion infos name
-- the columns of the relation, and Postgres and the plugin do what is documented of them.
pub restriction_keeps_rows :
    {env : Environment} (w : World env) (infos : ConversionInfos) (base : ℕ)
    → Documented w base
    → NamesColumns w infos
    → (row : Row) (n : Node) (q : Qual) → Supported w infos base n
    → single_restriction_to_qual env infos base n ≡ some q
    → truth w base row n ≡ some true
    → keeps w row q ≡ true
restriction_keeps_rows w infos base doc names row n q h e t =
    node_kept w infos base doc names row n q h e t
