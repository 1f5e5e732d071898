-- ===== src/Fdw/Json/Defs.antt =====
-- jsonValueString of helpers.go, which takes NUL characters out of a JSON text.
use steampipe_postgres_fdw.Prelude.{
  if◌then◌else◌, nat_eq, string_eq, Result, value, fail, ℕ, zero, suc, ◌+◌, Bool, true, false, ◌||◌,
  List, [], ◌∷◌,
}

-- A character: those that the expression names, and any other.
pub data Letter : Type 0 where
  backslash u zero_digit : Letter
  other : ℕ → Letter

abbrev pub Text : Type 0
Text = List Letter

-- `\u0000`
abbrev pub null_escape : Text
null_escape = backslash ∷ u ∷ zero_digit ∷ zero_digit ∷ zero_digit ∷ zero_digit ∷ []

-- Whether a text begins with the escape.
unfoldable pub begins_with_null : Text → Bool
begins_with_null (backslash ∷ u ∷ zero_digit ∷ zero_digit ∷ zero_digit ∷ zero_digit ∷ t) = true
begins_with_null t = false

-- strings.Contains(valueString, `\u0000`)
unfoldable pub contains_null : Text → Bool
unfolding begins_with_null
contains_null [] = false
contains_null (c ∷ t) = begins_with_null (c ∷ t) || contains_null t

-- The length of the longest match of `(?:\\u0000)*` here.
unfoldable pub nulls_length : Text → ℕ
nulls_length (backslash ∷ u ∷ zero_digit ∷ zero_digit ∷ zero_digit ∷ zero_digit ∷ t) =
    6 + nulls_length t
nulls_length t = 0

-- A match of `((?:\\\\)*)(?:\\u0000)+`: the length of the group, and of what is behind it.
pub record Match : Type 0 where
  pub kept : ℕ
  pub dropped : ℕ

abbrev pub no_match : Match
no_match = record { kept = 0; dropped = 0 }

abbrev pub pair_before : (kept dropped : ℕ) → Match
pair_before k zero = no_match
pair_before k (suc d) = record { kept = suc (suc k); dropped = suc d }

-- The match here; nothing is dropped where there is none.
unfoldable pub match_here : Text → Match
unfolding nulls_length
match_here (backslash ∷ backslash ∷ t) = pair_before (match_here t).kept (match_here t).dropped
match_here t = record { kept = 0; dropped = nulls_length t }

-- The match behind a character, which has to be `[^\\]`.
unfoldable pub match_after : Letter → Text → Match
unfolding match_here
match_after backslash t = no_match
match_after c t = match_here t

-- re.ReplaceAllString(valueString, "$1"), with what is left of the last match to keep and to drop.
unfoldable pub replace : (kept dropped : ℕ) → Text → Text
unfolding match_after
replace k d [] = []
replace (suc k) d (c ∷ t) = c ∷ replace k d t
replace zero (suc d) (c ∷ t) = replace zero d t
replace zero zero (c ∷ t) = c ∷ replace (match_after c t).kept (match_after c t).dropped t

-- The start of the text takes the place of the character.
unfoldable pub replace_all : Text → Text
unfolding match_here replace
replace_all t = replace (match_here t).kept (match_here t).dropped t

module _ {E V : Type 0} (marshal : V → Result E Text) where
  unfoldable pub cleaned : Result E Text → Result E Text
  unfolding contains_null replace_all
  cleaned (fail e) = fail e
  cleaned (value t) = value (if contains_null t then replace_all t else t)

  -- jsonValueString
  unfoldable pub json_value_string : V → Result E Text
  unfolding cleaned
  json_value_string v = cleaned (marshal v)
