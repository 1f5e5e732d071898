-- ===== src/Fdw/Json/Tokens.antt =====
-- The characters and escapes of a JSON text, and what jsonValueString makes of them.
use steampipe_postgres_fdw.Prelude.{nat_eq, string_eq, ℕ, ◌≡◌, refl, ap, ◌∙◌, List, [], ◌∷◌, ◌++◌}
use steampipe_postgres_fdw.Fdw.Json.Defs.{
  Letter, backslash, u, zero_digit, other, Text, null_escape, nulls_length, no_match, match_here,
  match_after, replace,
}

pub data Digit : Type 0 where
  nought : Digit
  hex : ℕ → Digit

abbrev letter : Digit → Letter
letter nought = zero_digit
letter (hex n) = other n

-- A character that is no backslash, an escape of another character than the backslash, or the code
-- of a character, by its first digit that is not 0.
pub data Item : Type 0 where
  plain_u plain_zero : Item
  plain escape : ℕ → Item
  code_first : ℕ → Digit → Digit → Digit → Item
  code_second : ℕ → Digit → Digit → Item
  code_third : ℕ → Digit → Item
  code_fourth : ℕ → Item

pub data Token : Type 0 where
  null pair : Token
  item : Item → Token

unfoldable pub before_item : Item → Text → Text
before_item plain_u t = u ∷ t
before_item plain_zero t = zero_digit ∷ t
before_item (plain n) t = other n ∷ t
before_item (escape n) t = backslash ∷ other n ∷ t
before_item (code_first n b c d) t = backslash ∷ u ∷ other n ∷ letter b ∷ letter c ∷ letter d ∷ t
before_item (code_second n c d) t = backslash ∷ u ∷ zero_digit ∷ other n ∷ letter c ∷ letter d ∷ t
before_item (code_third n d) t = backslash ∷ u ∷ zero_digit ∷ zero_digit ∷ other n ∷ letter d ∷ t
before_item (code_fourth n) t = backslash ∷ u ∷ zero_digit ∷ zero_digit ∷ zero_digit ∷ other n ∷ t

unfoldable pub render : List Token → Text
unfolding before_item
render [] = []
render (null ∷ ts) = null_escape ++ render ts
render (pair ∷ ts) = backslash ∷ backslash ∷ render ts
render (item i ∷ ts) = before_item i (render ts)

-- What is in front: a character, a NUL that was dropped, or escaped backslashes behind one.
pub data Front : Type 0 where
  character dropped_null shield : Front

-- The tokens that are left.
unfoldable pub strip : Front → List Token → List Token
strip f [] = []
strip f (item i ∷ ts) = item i ∷ strip character ts
strip character (null ∷ ts) = strip dropped_null ts
strip character (pair ∷ ts) = pair ∷ strip character ts
strip dropped_null (null ∷ ts) = strip dropped_null ts
strip dropped_null (pair ∷ ts) = pair ∷ strip shield ts
strip shield (null ∷ ts) = null ∷ strip character ts
strip shield (pair ∷ ts) = pair ∷ strip shield ts

-- What replaces a text behind a character.
abbrev pub replace_behind : Text → Text
replace_behind t = replace (match_here t).kept (match_here t).dropped t

behind_digit : (d : Digit) (t : Text) → replace_behind (letter d ∷ t) ≡ letter d ∷ replace_behind t
unfolding replace match_after match_here nulls_length
behind_digit nought t = refl
behind_digit (hex n) t = refl

behind_digits :
    (c d : Digit) (t : Text)
    → replace_behind (letter c ∷ letter d ∷ t) ≡ letter c ∷ letter d ∷ replace_behind t
behind_digits c d t = behind_digit c (letter d ∷ t) ∙ ap (λ r. letter c ∷ r) (behind_digit d t)

pub match_here-item : (i : Item) (t : Text) → match_here (before_item i t) ≡ no_match
unfolding match_here nulls_length before_item
match_here-item plain_u t = refl
match_here-item plain_zero t = refl
match_here-item (plain n) t = refl
match_here-item (escape n) t = refl
match_here-item (code_first n b c d) t = refl
match_here-item (code_second n c d) t = refl
match_here-item (code_third n d) t = refl
match_here-item (code_fourth n) t = refl

pub nulls_length-item : (i : Item) (t : Text) → nulls_length (before_item i t) ≡ 0
unfolding nulls_length before_item
nulls_length-item plain_u t = refl
nulls_length-item plain_zero t = refl
nulls_length-item (plain n) t = refl
nulls_length-item (escape n) t = refl
nulls_length-item (code_first n b c d) t = refl
nulls_length-item (code_second n c d) t = refl
nulls_length-item (code_third n d) t = refl
nulls_length-item (code_fourth n) t = refl

pub replace-item :
    (i : Item) (t : Text) → replace 0 0 (before_item i t) ≡ before_item i (replace_behind t)
unfolding replace match_after match_here nulls_length before_item
replace-item plain_u t = refl
replace-item plain_zero t = refl
replace-item (plain n) t = refl
replace-item (escape n) t = refl
replace-item (code_first n b c d) t =
    ap (λ r. backslash ∷ u ∷ other n ∷ r)
      (behind_digit b (letter c ∷ letter d ∷ t) ∙ ap (λ r. letter b ∷ r) (behind_digits c d t))
replace-item (code_second n c d) t =
    ap (λ r. backslash ∷ u ∷ zero_digit ∷ other n ∷ r) (behind_digits c d t)
replace-item (code_third n d) t =
    ap (λ r. backslash ∷ u ∷ zero_digit ∷ zero_digit ∷ other n ∷ r) (behind_digit d t)
replace-item (code_fourth n) t = refl
