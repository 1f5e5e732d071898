-- ===== src/Fdw/Json/Shielded.antt =====
-- A NUL behind escaped backslashes and another NUL.
use steampipe_postgres_fdw.Prelude.{
  nat_eq, string_eq, Result, value, ℕ, zero, suc, ◌≡◌, refl, ap, ◌∙◌, List, ◌∷◌,
}
use steampipe_postgres_fdw.Fdw.Json.Defs.{other, Text, json_value_string}
use steampipe_postgres_fdw.Fdw.Json.Tokens.{Token, null, pair, render, character, shield, strip}
use steampipe_postgres_fdw.Fdw.Json.Cleaned.{json_value_string-strip}

-- Tokens behind a number of escaped backslashes.
unfoldable pub pairs : ℕ → List Token → List Token
pairs zero ts = ts
pairs (suc k) ts = pair ∷ pairs k ts

strip-pairs :
    (k : ℕ) (ts : List Token) → strip character (pairs k ts) ≡ pairs k (strip character ts)
unfolding strip pairs
strip-pairs zero ts = refl
strip-pairs (suc k) ts = ap (λ r. pair ∷ r) (strip-pairs k ts)

strip_shield-pairs :
    (k : ℕ) (ts : List Token) → strip shield (pairs k ts) ≡ pairs k (strip shield ts)
unfolding strip pairs
strip_shield-pairs zero ts = refl
strip_shield-pairs (suc k) ts = ap (λ r. pair ∷ r) (strip_shield-pairs k ts)

strip-shielded :
    (k j : ℕ) (ts : List Token)
    → strip character (pairs k (null ∷ pairs (suc j) (null ∷ ts)))
      ≡ pairs k (pairs (suc j) (null ∷ strip character ts))
unfolding strip pairs
strip-shielded k j ts =
    strip-pairs k (null ∷ pairs (suc j) (null ∷ ts))
    ∙ ap (λ r. pairs k (pair ∷ r)) (strip_shield-pairs j (null ∷ ts))

module _ {E V : Type 0} (marshal : V → Result E Text) where
  -- Where the JSON text of a value is a character other than a backslash, u or 0, any number of
  -- escaped backslashes, a NUL, at least one escaped backslash, another NUL and then characters and
  -- escapes, jsonValueString takes the first NUL out and leaves the second in.
  pub shielded_null_left :
      (v : V) (n k j : ℕ) (ts : List Token)
      → marshal v ≡ value (other n ∷ render (pairs k (null ∷ pairs (suc j) (null ∷ ts))))
      → json_value_string marshal v
        ≡ value (other n ∷ render (pairs k (pairs (suc j) (null ∷ strip character ts))))
  shielded_null_left v n k j ts e =
      json_value_string-strip marshal v n (pairs k (null ∷ pairs (suc j) (null ∷ ts))) e
      ∙ ap (λ l. value (other n ∷ render l)) (strip-shielded k j ts)
