-- ===== src/Fdw/Sessions/Tests.antt =====
-- The execution states of a few scans.
use steampipe_postgres_fdw.Prelude.{
  nat_eq, string_eq, ok, ◌%◌, String, ◌≡◌, refl, subst, none, some, [], ◌∷◌, arith,
}
use steampipe_postgres_fdw.Prelude.GoMap.{lookup, insert}
use steampipe_postgres_fdw.Fdw.Sessions.Defs.{
  uint_size, Sessions, save_exec_state, get_exec_state, begin_foreign_scan, rescan_foreign_scan,
  explain_foreign_scan, end_foreign_scan,
}
use steampipe_postgres_fdw.Fdw.Sessions.Tokens.{IsLive, get-save, get-save_truncated}
use steampipe_postgres_fdw.Fdw.Sessions.Explained.{explained_scan_not_ended}
use steampipe_postgres_fdw.Fdw.Sessions.Rescan.{rescan_leaks}

abbrev no_sessions : Sessions String
no_sessions = record { si = 0; sess = []; cells = [] }

no_sessions-IsLive : IsLive no_sessions
unfolding lookup
no_sessions-IsLive = record { fits = omega arith; issued = λ a t e. cc; apart = λ a b t e f. cc }

-- The last token that fits was issued, and the state with token 0 was never made.
abbrev worn_out : Sessions String
worn_out = record { si = 4294967295; sess = []; cells = [] }

get-save_example :
    (get_exec_state (some 16) (save_exec_state "scan" 16 no_sessions) ≡ ok (some "scan"))
    × (get_exec_state (some 8) (save_exec_state "scan" 16 no_sessions)
        ≡ get_exec_state (some 8) no_sessions)
    × IsLive (save_exec_state "scan" 16 no_sessions)
get-save_example =
    get-save "scan" 16 8 no_sessions no_sessions-IsLive (omega arith) (λ p. omega arith)

get-save_truncated_example :
    get_exec_state (some 16) (save_exec_state "scan" 16 worn_out)
    ≡ ok (lookup (4294967296 % uint_size) worn_out.sess)
get-save_truncated_example = get-save_truncated "scan" 16 worn_out (omega arith) (omega arith)

abbrev one_session : Sessions String
one_session = record { si = 1; sess = (1, "scan") ∷ []; cells = (16, 1) ∷ [] }

saved_one : save_exec_state "scan" 16 no_sessions ≡ one_session
unfolding save_exec_state insert
saved_one = refl

one_session-IsLive : IsLive one_session
one_session-IsLive =
    subst IsLive saved_one
      (get-save "scan" 16 8 no_sessions no_sessions-IsLive (omega arith) (λ p. omega arith)).2

rescan_leaks_example :
    (after : Sessions String) × (let began = begin_foreign_scan "first" 16 none no_sessions in
      let again = rescan_foreign_scan "second" 32 began.0 began.1 in
      end_foreign_scan again.0 again.1 ≡ ok (some "second", (none, after)))
    × (get_exec_state (some 16) after ≡ ok (some "first"))
rescan_leaks_example =
    rescan_leaks "first" "second" 16 32 no_sessions no_sessions-IsLive (omega arith)
      (λ p. omega arith)

explained_scan_not_ended_example :
    (after : Sessions String) × (let began = begin_foreign_scan "scan" 16 none no_sessions in
      explain_foreign_scan began.0 began.1 ≡ ok (none, after))
    × (end_foreign_scan none after ≡ ok (none, (none, after)))
    × (let began = begin_foreign_scan "scan" 16 none no_sessions in
        end_foreign_scan began.0 began.1 ≡ ok (some "scan", (none, after)))
explained_scan_not_ended_example =
    explained_scan_not_ended "scan" 16 8 no_sessions no_sessions-IsLive (omega arith)
      (λ p. omega arith)
