-- ===== src/Hub/Iterator/Progress.antt =====
-- hub/scan_iterator_base.go: the thread that reads the stream does not block for ever.
use steampipe_postgres_fdw.Prelude.{
  length, nat_eq, string_eq, ℕ, ◌+◌, ◌*◌, ◌<◌, ◌≡◌, refl, ◌≢◌, false, List, [], ◌∷◌, arith,
}
use steampipe_postgres_fdw.Hub.Iterator.Defs.{
  QueryStatus, started, ready, error, complete, Received, response, nil_response, recv_error,
}
use steampipe_postgres_fdw.Hub.Iterator.Channel.{Channel}
use steampipe_postgres_fdw.Hub.Iterator.Reader.{
  Reader, entering, reading, sending, finished, Scan, ThreadStep, enters, receives, sees_cancel,
  sends, enter_in, enter_read_thread, read_plugin_result, stop_reading, send_row,
}

-- The steps that the thread has left, at most.
unfoldable pub rank_of : Reader → ℕ → ℕ
rank_of entering n = 2 * n + 3
rank_of reading n = 2 * n + 2
rank_of (sending row) n = 2 * n + 3
rank_of finished n = 0

unfoldable pub rank : Scan → ℕ
unfolding rank_of
rank s = rank_of s.reader (length s.stream)

enter_in-rank : (q : QueryStatus) (s : Scan) → s.reader ≡ entering → rank (enter_in q s) < rank s
unfolding rank enter_in stop_reading rank_of
enter_in-rank started s e = rw e (omega arith)
enter_in-rank ready s e = rw e (omega arith)
enter_in-rank error s e = rw e (omega arith)
enter_in-rank complete s e = rw e (omega arith)

pub ThreadStep-rank : {s t : Scan} → ThreadStep s t → rank t < rank s
unfolding rank enter_read_thread read_plugin_result stop_reading send_row rank_of
ThreadStep-rank (enters s e) = enter_in-rank s.iterator.status s e
ThreadStep-rank (receives s (response r) rest e f) = rw (e, f) (omega arith)
ThreadStep-rank (receives s nil_response rest e f) = rw (e, f) (omega arith)
ThreadStep-rank (receives s (recv_error m) rest e f) = rw (e, f) (omega arith)
ThreadStep-rank (sees_cancel s e c) = rw e (omega arith)
ThreadStep-rank (sends s row e b) = rw e (omega arith)

cons-of : (l : List Received) → l ≢ [] → (m : Received) × (rest : List Received) × (l ≡ m ∷ rest)
cons-of [] ne = absurd (ne refl)
cons-of (m ∷ rest) ne = (m, rest, refl)

pub thread_moves :
    (s : Scan)
    → Channel s
    → s.stream ≢ []
    → s.iterator.rows ≡ []
    → s.iterator.closed ≡ false
    → (r : Reader) → s.reader ≡ r
    → (t : Scan) × ThreadStep s t
thread_moves s h ne e c entering q = (_, enters s q)
thread_moves s h ne e c (sending row) q = (_, sends s row q (rw e (omega arith)))
thread_moves s h ne e c finished q = absurd (cc (h.finished_closed q, c))
thread_moves s h ne e c reading q = let m = cons-of s.stream ne in (_, receives s m.0 m.1 q m.2)
