-- ===== src/Fdw/Json/Tests.antt =====
-- The JSON texts of values, and their theorems applied there.
use steampipe_postgres_fdw.Prelude.{
  nat_eq, string_eq, Result, value, fail, ℕ, ◌≡◌, refl, true, List, [], ◌∷◌, ◌++◌,
}
use steampipe_postgres_fdw.Fdw.Json.Defs.{
  backslash, other, Text, null_escape, contains_null, replace_all, json_value_string,
}
use steampipe_postgres_fdw.Fdw.Json.Tokens.{
  Token, null, pair, item, plain, escape, code_fourth, code_first, hex, nought, render, character,
  strip,
}
use steampipe_postgres_fdw.Fdw.Json.Cleaned.{json_value_string-strip}
use steampipe_postgres_fdw.Fdw.Json.Shielded.{pairs, shielded_null_left}

-- The quotation mark.
abbrev quote : ℕ
quote = 34

-- `"\u0000\u0000a"`
abbrev two_nulls : Text
two_nulls = other quote ∷ null_escape ++ (null_escape ++ (other 97 ∷ other quote ∷ []))

both_removed : replace_all two_nulls ≡ other quote ∷ other 97 ∷ other quote ∷ []
unfolding replace_all
both_removed = refl

-- `"\\u0000"`, an escaped backslash and characters
abbrev escaped : Text
escaped = other quote ∷ backslash ∷ (null_escape ++ (other quote ∷ []))

escaped_kept : replace_all escaped ≡ escaped
unfolding replace_all
escaped_kept = refl

-- `"\u0000\\\u0000"`
shielded :
    contains_null (
      replace_all (
        other quote ∷ null_escape ++ (backslash ∷ backslash ∷ (null_escape ++ (other quote ∷ [])))))
    ≡ true
unfolding contains_null replace_all
shielded = refl

abbrev marshal : List Token → Result ℕ Text
marshal ts = value (other quote ∷ render ts)

failed : json_value_string {E = ℕ} {V = ℕ} (λ v. fail v) 3 ≡ fail 3
unfolding json_value_string
failed = refl

abbrev tokens : List Token
tokens =
    item (code_first 1 nought (hex 2) nought)
    ∷ null
    ∷ null
    ∷ item (escape 110)
    ∷ pair
    ∷ null
    ∷ item (code_fourth 9)
    ∷ item (plain quote)
    ∷ []

json_value_string-strip_example :
    json_value_string marshal tokens ≡ value (other quote ∷ render (strip character tokens))
json_value_string-strip_example = json_value_string-strip marshal tokens quote tokens refl

stripped :
    strip character tokens
    ≡ item (code_first 1 nought (hex 2) nought)
      ∷ item (escape 110)
      ∷ pair
      ∷ item (code_fourth 9)
      ∷ item (plain quote)
      ∷ []
unfolding strip
stripped = refl

shielded_null_left_example :
    json_value_string marshal (pairs 1 (null ∷ pairs 1 (null ∷ tokens)))
    ≡ value (other quote ∷ render (pairs 1 (pairs 1 (null ∷ strip character tokens))))
shielded_null_left_example =
    shielded_null_left marshal (pairs 1 (null ∷ pairs 1 (null ∷ tokens))) quote 1 0 tokens refl
