-- ===== src/Fdw/Sessions/Tokens.antt =====
-- exec.go: what a saved state is found by, while tokens fit the C struct and after.
use steampipe_postgres_fdw.Prelude.{
  nat_eq, string_eq, ok, ℕ, suc, ◌%◌, ◌≤◌, ◌<◌, ◌≡◌, refl, sym, ap, ◌∙◌, ◌≢◌, inl, inr, Option,
  none, some, arith,
}
use steampipe_postgres_fdw.Prelude.GoMap.{
  lookup, insert, erase, lookup-insert_self, lookup-insert_other, lookup-erase_self,
  lookup-erase_other, insert-cases, erase-cases,
}
use steampipe_postgres_fdw.Fdw.Sessions.Defs.{
  uint_size, uint64_size, Sessions, save_exec_state, get_at, get_exec_state, clear_at,
  clear_exec_state,
}

-- Tokens fit the C struct, and no two structs hold the same.
pub record IsLive {ℓ} {S : Type ℓ} (st : Sessions S) : Type ℓ where
  pub fits : st.si < uint_size
  pub issued : (a t : ℕ) → lookup a st.cells ≡ some t → t ≤ st.si
  pub apart : (a b t : ℕ) → lookup a st.cells ≡ some t → lookup b st.cells ≡ some t → a ≡ b

token-fits : (n : ℕ) → suc n < uint_size → suc n % uint64_size ≡ suc n
token-fits n h = omega arith

token-counted : (n : ℕ) → suc n < uint64_size → suc n % uint64_size ≡ suc n
token-counted n h = omega arith

token-cut : (n : ℕ) → uint_size ≤ suc n → suc n ≢ suc n % uint_size
token-cut n h p = omega arith

token-kept : (n : ℕ) → n < uint_size → n % uint_size ≡ n
token-kept n h = omega arith

module _ {ℓ} {S : Type ℓ} where
  pub save-token :
      (s : S) (address : ℕ) (st : Sessions S)
      → suc st.si < uint_size
      → (lookup address (save_exec_state s address st).cells ≡ some (suc st.si))
        × ((save_exec_state s address st).si ≡ suc st.si)
  unfolding save_exec_state
  save-token s address st h =
      rw (token-fits st.si h, token-kept (suc st.si) h)
        (lookup-insert_self address (suc st.si) st.cells, refl)

  pub save-others :
      (s : S) (address b : ℕ) (st : Sessions S)
      → address ≢ b
      → lookup b (save_exec_state s address st).cells ≡ lookup b st.cells
  unfolding save_exec_state
  save-others s address b st ne = lookup-insert_other address b _ st.cells ne

  save-IsLive :
      (s : S) (address : ℕ) (st : Sessions S)
      → IsLive st
      → suc st.si < uint_size
      → IsLive (record {
        si = suc st.si;
        sess = insert (suc st.si) s st.sess;
        cells = insert address (suc st.si) st.cells;
      })
  save-IsLive s address st l h = record {
    fits = h;
    issued = λ a t e. elim (insert-cases address a (suc st.si) t st.cells e) [
      | inl n ↦ omega (arith, n.1)
      | inr o ↦ omega (arith, l.issued a t o.1)
    ];
    apart = λ a b t e f. elim (insert-cases address a (suc st.si) t st.cells e) [
      | inl n ↦ elim (insert-cases address b (suc st.si) t st.cells f) [
        | inl m ↦ sym n.0 ∙ m.0
        | inr o ↦ absurd (omega (arith, n.1, l.issued b t o.1))
      ]
      | inr o ↦ elim (insert-cases address b (suc st.si) t st.cells f) [
        | inl m ↦ absurd (omega (arith, m.1, l.issued a t o.1))
        | inr q ↦ l.apart a b t o.1 q.1
      ]
    ];
  }

  clear-IsLive :
      (a t : ℕ) (st : Sessions S)
      → IsLive st
      → IsLive (record st { sess = erase t st.sess; cells = erase a st.cells })
  clear-IsLive a t st l = record {
    fits = l.fits;
    issued = λ b u e. l.issued b u (erase-cases a b u st.cells e).1;
    apart = λ b c u e f.
        l.apart b c u (erase-cases a b u st.cells e).1 (erase-cases a c u st.cells f).1;
  }

  get_at-erase :
      (a b t : ℕ) (o : Option ℕ) (st : Sessions S)
      → IsLive st
      → lookup a st.cells ≡ some t
      → lookup b st.cells ≡ o
      → b ≢ a
      → get_at o (record st { sess = erase t st.sess; cells = erase a st.cells }) ≡ get_at o st
  unfolding get_at
  get_at-erase a b t none st l e f ne = refl
  get_at-erase a b t (some u) st l e f ne =
      ap ok (lookup-erase_other t u st.sess (λ p. ne (l.apart b a u f (e ∙ ap some p))))

  others-kept :
      (s : S) (address other : ℕ) (o : Option ℕ) (st : Sessions S)
      → IsLive st
      → lookup other st.cells ≡ o
      → get_at o (record {
        si = suc st.si;
        sess = insert (suc st.si) s st.sess;
        cells = insert address (suc st.si) st.cells;
      })
        ≡ get_at o st
  unfolding get_at
  others-kept s address other none st l e = refl
  others-kept s address other (some t) st l e =
      ap ok
        (lookup-insert_other (suc st.si) t s st.sess (λ p. omega (arith, p, l.issued other t e)))

  -- SaveExecState while fewer than 2^32 - 1 states were saved: at the pointer to the new address
  -- GetExecState finds the state just saved, at every other pointer what it found before, and the
  -- tokens stay apart.
  pub get-save :
      (s : S) (address other : ℕ) (st : Sessions S)
      → IsLive st
      → suc st.si < uint_size
      → other ≢ address
      → (get_exec_state (some address) (save_exec_state s address st) ≡ ok (some s))
        × (get_exec_state (some other) (save_exec_state s address st)
            ≡ get_exec_state (some other) st)
        × IsLive (save_exec_state s address st)
  unfolding save_exec_state get_exec_state get_at
  get-save s address other st l h ne =
      rw (token-fits st.si h, token-kept (suc st.si) h)
        (
          rw (lookup-insert_self address (suc st.si) st.cells)
              (ap ok (lookup-insert_self (suc st.si) s st.sess)),
          rw (lookup-insert_other address other (suc st.si) st.cells (λ p. ne (sym p)))
              (others-kept s address other (lookup other st.cells) st l refl),
          save-IsLive s address st l h,
        )

  -- Past 2^32 - 1 saved states, the token is cut to 32 bits on its way through the C struct: at
  -- the new pointer GetExecState finds whatever an old token left there, or nothing, and not the
  -- state just saved.
  pub get-save_truncated :
      (s : S) (address : ℕ) (st : Sessions S)
      → uint_size ≤ suc st.si
      → suc st.si < uint64_size
      → get_exec_state (some address) (save_exec_state s address st)
        ≡ ok (lookup (suc st.si % uint_size) st.sess)
  unfolding save_exec_state get_exec_state get_at
  get-save_truncated s address st big small =
      rw
        (
          lookup-insert_self address (suc st.si % uint64_size % uint_size) st.cells,
          token-counted st.si small,
        )
        (ap ok
          (lookup-insert_other (suc st.si) (suc st.si % uint_size) s st.sess (token-cut st.si big)))

  -- ClearExecState of a pointer in use returns and removes the state of that pointer, at every
  -- other pointer GetExecState finds what it found before, and the tokens stay apart.
  pub clear_exec_state_lem :
      (a t other : ℕ) (st : Sessions S)
      → IsLive st
      → lookup a st.cells ≡ some t
      → other ≢ a
      → (after : Sessions S) × (clear_exec_state (some a) st ≡ ok after)
        × (lookup t after.sess ≡ none)
        × (get_exec_state (some other) after ≡ get_exec_state (some other) st)
        × IsLive after
  unfolding clear_exec_state clear_at get_exec_state get_at
  clear_exec_state_lem a t other st l e ne = rw e (
    record st { sess = erase t st.sess; cells = erase a st.cells },
    refl,
    lookup-erase_self t st.sess,
    rw (lookup-erase_other a other st.cells (λ p. ne (sym p)))
        (get_at-erase a other t (lookup other st.cells) st l e refl ne),
    clear-IsLive a t st l,
  )
