-- ===== src/Fdw/Sessions/Rescan.antt =====
-- exec.go with the scan callbacks of fdw.go: what a rescan leaves behind.
use steampipe_postgres_fdw.Prelude.{
  nat_eq, string_eq, ok, ℕ, suc, ◌<◌, ◌≡◌, refl, sym, ◌∙◌, ◌≢◌, Option, none, some, arith,
}
use steampipe_postgres_fdw.Fdw.Sessions.Defs.{
  uint_size, Sessions, save_exec_state, get_exec_state, clear_exec_state, begin_foreign_scan,
  rescan_foreign_scan, end_foreign_scan,
}
use steampipe_postgres_fdw.Fdw.Sessions.Tokens.{IsLive, get-save, clear_exec_state_lem, save-token}

module _ {ℓ} {S : Type ℓ} where
  pub end-ok :
      (s : Option S) (p : Option ℕ) (st after : Sessions S)
      → get_exec_state p st ≡ ok s
      → clear_exec_state p st ≡ ok after
      → end_foreign_scan p st ≡ ok (s, (none, after))
  unfolding end_foreign_scan
  end-ok s p st after e f = rw (e, f) refl

  -- A scan that Postgres begins, rescans and ends: EndScan is handed the state of the rescan
  -- alone, and the state that was there before stays in the table of states, at a pointer that
  -- the node no longer has. Fewer than 2^32 - 2 states were saved before, and malloc returns
  -- two addresses.
  pub rescan_leaks :
      (first second : S) (a b : ℕ) (st : Sessions S)
      → IsLive st
      → suc (suc st.si) < uint_size
      → b ≢ a
      → (after : Sessions S) × (let began = begin_foreign_scan first a none st in
          let again = rescan_foreign_scan second b began.0 began.1 in
          end_foreign_scan again.0 again.1 ≡ ok (some second, (none, after)))
        × (get_exec_state (some a) after ≡ ok (some first))
  unfolding begin_foreign_scan rescan_foreign_scan
  rescan_leaks first second a b st l h ne =
      let st₁ = save_exec_state first a st in
      let one = get-save first a b st l (omega (arith, h)) ne in
      let token = save-token first a st (omega (arith, h)) in
      let room : suc st₁.si < uint_size = omega (arith, h, token.1) in
      let two = get-save second b a st₁ one.2 room (λ p. ne (sym p)) in
      let ended =
        clear_exec_state_lem b (suc st₁.si) a (save_exec_state second b st₁) two.2
          (save-token second b st₁ room).0 (λ p. ne (sym p)) in
      (ended.0, end-ok _ _ _ _ two.0 ended.1, ended.3 ∙ two.1 ∙ one.0)
