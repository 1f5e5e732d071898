-- ===== src/Fdw/Sessions/Explained.antt =====
-- exec.go with the explain and end callbacks of fdw.go: a scan under EXPLAIN ANALYZE.
use steampipe_postgres_fdw.Prelude.{
  nat_eq, string_eq, ok, ℕ, suc, ◌<◌, ◌≡◌, refl, ◌≢◌, Option, none, some,
}
use steampipe_postgres_fdw.Fdw.Sessions.Defs.{
  uint_size, Sessions, save_exec_state, get_exec_state, clear_exec_state, begin_foreign_scan,
  explain_foreign_scan, end_foreign_scan,
}
use steampipe_postgres_fdw.Fdw.Sessions.Tokens.{IsLive, get-save, clear_exec_state_lem, save-token}
use steampipe_postgres_fdw.Fdw.Sessions.Rescan.{end-ok}

module _ {ℓ} {S : Type ℓ} where
  explain-ok :
      (s : S) (p : Option ℕ) (st after : Sessions S)
      → get_exec_state p st ≡ ok (some s)
      → clear_exec_state p st ≡ ok after
      → explain_foreign_scan p st ≡ ok (none, after)
  unfolding explain_foreign_scan
  explain-ok s p st after e f = rw (e, f) refl

  nothing :
      (st : Sessions S) → (get_exec_state none st ≡ ok none) × (clear_exec_state none st ≡ ok st)
  unfolding get_exec_state clear_exec_state
  nothing st = (refl, refl)

  -- A scan that Postgres begins, explains and ends: the explain clears the state, so the end hands
  -- none to EndScan, which it would be handed without the explain. Fewer than 2^32 - 1 states were
  -- saved before, and the pointer `other` is none that malloc returns for the scan.
  pub explained_scan_not_ended :
      (s : S) (a other : ℕ) (st : Sessions S)
      → IsLive st
      → suc st.si < uint_size
      → other ≢ a
      → (after : Sessions S) × (let began = begin_foreign_scan s a none st in
          explain_foreign_scan began.0 began.1 ≡ ok (none, after))
        × (end_foreign_scan none after ≡ ok (none, (none, after)))
        × (let began = begin_foreign_scan s a none st in
            end_foreign_scan began.0 began.1 ≡ ok (some s, (none, after)))
  unfolding begin_foreign_scan
  explained_scan_not_ended s a other st l h ne =
      let began = save_exec_state s a st in
      let saved = get-save s a other st l h ne in
      let cleared =
        clear_exec_state_lem a (suc st.si) other began saved.2 (save-token s a st h).0 ne in
      (
        cleared.0,
        explain-ok s (some a) began cleared.0 saved.0 cleared.1,
        end-ok none none cleared.0 cleared.0 (nothing cleared.0).0 (nothing cleared.0).1,
        end-ok (some s) (some a) began cleared.0 saved.0 cleared.1,
      )
