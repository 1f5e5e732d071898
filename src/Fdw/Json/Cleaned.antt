-- ===== src/Fdw/Json/Cleaned.antt =====
-- The text that jsonValueString returns.
use steampipe_postgres_fdw.Prelude.{
  if◌then◌else◌, nat_eq, string_eq, Result, value, ℕ, zero, suc, ◌+◌, ◌≡◌, refl, sym, ap, ◌∙◌,
  subst, Bool, true, false, ◌||◌, List, [], ◌∷◌, ◌++◌, arith,
}
use steampipe_postgres_fdw.Fdw.Json.Defs.{
  Letter, backslash, u, zero_digit, other, Text, null_escape, begins_with_null, contains_null,
  nulls_length, Match, pair_before, match_here, match_after, replace, replace_all, cleaned,
  json_value_string,
}
use steampipe_postgres_fdw.Fdw.Json.Tokens.{
  Item, plain_u, plain_zero, plain, escape, code_first, code_second, code_third, code_fourth,
  before_item, Token, null, pair, item, render, Front, character, dropped_null, shield, strip,
  replace_behind, match_here-item, nulls_length-item, replace-item,
}

-- A match that drops nothing is none.
abbrev IsNoneOrDrops : Match → Type 0
IsNoneOrDrops m = m.dropped ≡ 0 → m.kept ≡ 0

pair_before-IsNoneOrDrops : (k d : ℕ) → IsNoneOrDrops (pair_before k d)
pair_before-IsNoneOrDrops k zero e = refl
pair_before-IsNoneOrDrops k (suc d) e = omega (arith, e)

behind_pair :
    (k d : ℕ) (t : Text)
    → (d ≡ 0 → k ≡ 0)
    → replace (pair_before k d).kept (pair_before k d).dropped (backslash ∷ backslash ∷ t)
      ≡ backslash ∷ backslash ∷ replace k d t
unfolding replace match_after
behind_pair k zero t h = ap (λ n. backslash ∷ backslash ∷ replace n 0 t) (sym (h refl))
behind_pair k (suc d) t h = refl

dropped_more : (n : ℕ) (t : Text) → replace 0 (6 + n) (null_escape ++ t) ≡ replace 0 n t
unfolding replace
dropped_more n t = ap (λ k. replace 0 k (null_escape ++ t)) (six_more n)
  where
    six_more : (n : ℕ) → 6 + n ≡ suc (suc (suc (suc (suc (suc n)))))
    six_more n = omega arith

-- What replaces the text of tokens, by what is in front of it.
record Replaced (ts : List Token) : Type 0 where
  none_or_drops : IsNoneOrDrops (match_here (render ts))
  behind_character : replace_behind (render ts) ≡ render (strip character ts)
  behind_null : replace 0 (nulls_length (render ts)) (render ts) ≡ render (strip dropped_null ts)
  behind_shield : replace 0 0 (render ts) ≡ render (strip shield ts)

null-Replaced : (ts : List Token) → Replaced ts → Replaced (null ∷ ts)
unfolding render strip match_here nulls_length replace match_after
null-Replaced ts h = record {
  none_or_drops = λ e. refl;
  behind_character = dropped_more _ (render ts) ∙ h.behind_null;
  behind_null = dropped_more _ (render ts) ∙ h.behind_null;
  behind_shield =
      ap (λ r. backslash ∷ u ∷ zero_digit ∷ zero_digit ∷ zero_digit ∷ zero_digit ∷ r)
        h.behind_character;
}

pair-Replaced : (ts : List Token) → Replaced ts → Replaced (pair ∷ ts)
unfolding render strip match_here nulls_length replace match_after
pair-Replaced ts h = record {
  none_or_drops =
      pair_before-IsNoneOrDrops (match_here (render ts)).kept (match_here (render ts)).dropped;
  behind_character =
      behind_pair (match_here (render ts)).kept (match_here (render ts)).dropped (render ts)
        h.none_or_drops
      ∙ ap (λ r. backslash ∷ backslash ∷ r) h.behind_character;
  behind_null = ap (λ r. backslash ∷ backslash ∷ r) h.behind_shield;
  behind_shield = ap (λ r. backslash ∷ backslash ∷ r) h.behind_shield;
}

item-Replaced : (i : Item) (ts : List Token) → Replaced ts → Replaced (item i ∷ ts)
unfolding render strip
item-Replaced i ts h = record {
  none_or_drops = λ e. ap (λ m. m.kept) (match_here-item i (render ts));
  behind_character =
      ap (λ m. replace m.kept m.dropped (before_item i (render ts))) (match_here-item i (render ts))
      ∙ item_kept;
  behind_null =
      ap (λ n. replace 0 n (before_item i (render ts))) (nulls_length-item i (render ts))
      ∙ item_kept;
  behind_shield = item_kept;
}
  where
    item_kept :
        replace 0 0 (before_item i (render ts)) ≡ before_item i (render (strip character ts))
    item_kept = replace-item i (render ts) ∙ ap (λ r. before_item i r) h.behind_character

render-Replaced : (ts : List Token) → Replaced ts
unfolding render strip replace match_here nulls_length
render-Replaced [] = record {
  none_or_drops = λ e. refl;
  behind_character = refl;
  behind_null = refl;
  behind_shield = refl;
}
render-Replaced (null ∷ ts) = null-Replaced ts (render-Replaced ts)
render-Replaced (pair ∷ ts) = pair-Replaced ts (render-Replaced ts)
render-Replaced (item i ∷ ts) = item-Replaced i ts (render-Replaced ts)

contains_null-tail :
    (c : Letter) (t : Text) → contains_null (c ∷ t) ≡ false → contains_null t ≡ false
unfolding contains_null
contains_null-tail c t e = right_false (begins_with_null (c ∷ t)) e
  where
    right_false : (b : Bool) {r : Bool} → (b || r) ≡ false → r ≡ false
    right_false true e = cc
    right_false false e = e

contains_null-tails :
    (front t : Text) → contains_null (front ++ t) ≡ false → contains_null t ≡ false
contains_null-tails [] t e = e
contains_null-tails (c ∷ front) t e =
    contains_null-tails front t (contains_null-tail c (front ++ t) e)

before_item-append : (i : Item) (t : Text) → before_item i t ≡ before_item i [] ++ t
unfolding before_item
before_item-append plain_u t = refl
before_item-append plain_zero t = refl
before_item-append (plain n) t = refl
before_item-append (escape n) t = refl
before_item-append (code_first n b c d) t = refl
before_item-append (code_second n c d) t = refl
before_item-append (code_third n d) t = refl
before_item-append (code_fourth n) t = refl

contains_null-item :
    (i : Item) (t : Text) → contains_null (before_item i t) ≡ false → contains_null t ≡ false
unfolding before_item
contains_null-item i t e =
    contains_null-tails (before_item i []) t
      (subst (λ r. contains_null r ≡ false) (before_item-append i t) e)

contains_null-pair :
    (t : Text) → contains_null (backslash ∷ backslash ∷ t) ≡ false → contains_null t ≡ false
contains_null-pair t e =
    contains_null-tail backslash t (contains_null-tail backslash (backslash ∷ t) e)

strip_same : (f : Front) (ts : List Token) → contains_null (render ts) ≡ false → strip f ts ≡ ts
unfolding strip render contains_null
strip_same f [] e = refl
strip_same f (null ∷ ts) e = cc
strip_same character (pair ∷ ts) e =
    ap (λ r. pair ∷ r) (strip_same character ts (contains_null-pair (render ts) e))
strip_same dropped_null (pair ∷ ts) e =
    ap (λ r. pair ∷ r) (strip_same shield ts (contains_null-pair (render ts) e))
strip_same shield (pair ∷ ts) e =
    ap (λ r. pair ∷ r) (strip_same shield ts (contains_null-pair (render ts) e))
strip_same f (item i ∷ ts) e =
    ap (λ r. item i ∷ r) (strip_same character ts (contains_null-item i (render ts) e))

replace_all-tokens :
    (n : ℕ) (ts : List Token)
    → replace_all (other n ∷ render ts) ≡ other n ∷ render (strip character ts)
unfolding replace_all replace match_here nulls_length match_after
replace_all-tokens n ts = ap (λ r. other n ∷ r) (render-Replaced ts).behind_character

guarded :
    (b : Bool) (n : ℕ) (ts : List Token)
    → (b ≡ false → strip character ts ≡ ts)
    → (if b then replace_all (other n ∷ render ts) else other n ∷ render ts)
      ≡ other n ∷ render (strip character ts)
guarded true n ts h = replace_all-tokens n ts
guarded false n ts h = ap (λ l. other n ∷ render l) (sym (h refl))

module _ {E V : Type 0} (marshal : V → Result E Text) where
  -- Where the JSON text of a value is a character other than a backslash, u or 0 and then characters
  -- and escapes, jsonValueString returns it less some NUL escapes. A NUL goes unless all that stands
  -- between it and a NUL that went is escaped backslashes, one at least.
  pub json_value_string-strip :
      (v : V) (n : ℕ) (ts : List Token)
      → marshal v ≡ value (other n ∷ render ts)
      → json_value_string marshal v ≡ value (other n ∷ render (strip character ts))
  unfolding json_value_string
  json_value_string-strip v n ts e =
      ap (cleaned marshal) e
      ∙ ap (λ t. value t)
          (guarded (contains_null (other n ∷ render ts)) n ts
            (λ f. strip_same character ts (contains_null-tail (other n) (render ts) f)))
