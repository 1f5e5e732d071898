-- ===== src/Fdw/Sessions/Defs.antt =====
-- exec.go: SaveExecState, GetExecState and ClearExecState, and how the scan callbacks of fdw.go
-- use them. A pointer is an address in the C heap, and nil is `none`.
use steampipe_postgres_fdw.Prelude.{
  nat_eq, string_eq, Go, ok, panic, ◌>>=◌, ℕ, suc, ◌%◌, Option, none, some,
}
use steampipe_postgres_fdw.Prelude.GoMap.{GoMap, lookup, insert, erase}

-- The values of C's `uint` and of Go's `uint64`.
abbrev pub uint_size : ℕ
uint_size = 4294967296

abbrev pub uint64_size : ℕ
uint64_size = 18446744073709551616

-- `cells` are the GoFdwExecutionState structs in C memory: the token at each address.
pub record Sessions {ℓ} (S : Type ℓ) : Type ℓ where
  pub si : ℕ
  pub sess : GoMap ℕ S
  pub cells : GoMap ℕ ℕ

module _ {ℓ} {S : Type ℓ} where
  -- SaveExecState, with the address that malloc returns.
  unfoldable pub save_exec_state : S → ℕ → Sessions S → Sessions S
  save_exec_state s address st =
      let i = suc st.si % uint64_size in
      record { si = i; sess = insert i s st.sess; cells = insert address (i % uint_size) st.cells }

  -- GetExecState. A read of freed memory is a panic here.
  unfoldable pub get_at : Option ℕ → Sessions S → Go (Option S)
  get_at none st = panic
  get_at (some token) st = ok (lookup token st.sess)

  unfoldable pub get_exec_state : Option ℕ → Sessions S → Go (Option S)
  unfolding get_at
  get_exec_state none st = ok none
  get_exec_state (some address) st = get_at (lookup address st.cells) st

  -- ClearExecState: delete(sess, i), then free.
  unfoldable pub clear_at : ℕ → Option ℕ → Sessions S → Go (Sessions S)
  clear_at address none st = panic
  clear_at address (some token) st =
      ok (record st { sess = erase token st.sess; cells = erase address st.cells })

  unfoldable pub clear_exec_state : Option ℕ → Sessions S → Go (Sessions S)
  unfolding clear_at
  clear_exec_state none st = ok st
  clear_exec_state (some address) st = clear_at address (lookup address st.cells) st

  -- node.fdw_state: goFdwBeginForeignScan saves the state that it has built, and so does
  -- goFdwReScanForeignScan, which begins the scan again.
  unfoldable pub begin_foreign_scan : S → ℕ → Option ℕ → Sessions S → Option ℕ × Sessions S
  unfolding save_exec_state
  begin_foreign_scan s address fdw_state st = (some address, save_exec_state s address st)

  unfoldable pub rescan_foreign_scan : S → ℕ → Option ℕ → Sessions S → Option ℕ × Sessions S
  unfolding begin_foreign_scan
  rescan_foreign_scan s address fdw_state st = begin_foreign_scan s address fdw_state st

  -- goFdwEndForeignScan: the state handed to EndScan, and what is left.
  unfoldable pub end_foreign_scan : Option ℕ → Sessions S → Go (Option S × (Option ℕ × Sessions S))
  unfolding get_exec_state clear_exec_state
  end_foreign_scan fdw_state st = do
    s ← get_exec_state fdw_state st
    cleared ← clear_exec_state fdw_state st
    ok (s, (none, cleared))

  -- goFdwExplainForeignScan, which Postgres also calls after a scan has run under EXPLAIN ANALYZE.
  -- No iterator of the hub is Explainable.
  unfoldable pub explained_state : Option S → Option ℕ → Sessions S → Go (Option ℕ × Sessions S)
  unfolding clear_exec_state
  explained_state none fdw_state st = ok (fdw_state, st)
  explained_state (some s) fdw_state st = do
    cleared ← clear_exec_state fdw_state st
    ok (none, cleared)

  unfoldable pub explain_foreign_scan : Option ℕ → Sessions S → Go (Option ℕ × Sessions S)
  unfolding explained_state get_exec_state
  explain_foreign_scan fdw_state st = do
    s ← get_exec_state fdw_state st
    explained_state s fdw_state st
