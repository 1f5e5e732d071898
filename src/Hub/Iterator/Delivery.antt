-- ===== src/Hub/Iterator/Delivery.antt =====
-- hub/scan_iterator_base.go: what a scan delivers, from its start to any state it can reach.
use steampipe_postgres_fdw.Prelude.{
  nat_eq, string_eq, Result, value, value_injective, ◌<◌, String, ◌≡◌, refl, sym, ap, ◌∙◌, subst,
  ◌≢◌, inl, inr, false, none, some, List, [], ◌++◌, map, arith,
}
use mathlib.Core.List.{append-nil}
use steampipe_postgres_fdw.Hub.Iterator.Progress.{rank, ThreadStep-rank, thread_moves}
use steampipe_postgres_fdw.Hub.Iterator.Defs.{
  Iterator, started, Received, Row, ScanError, Value, ResultRow, Call, row_read, no_more_rows,
  failed, waits, returns, panics, next, populate_row, start, new_base_scan_iterator,
}
use steampipe_postgres_fdw.Hub.Iterator.Calls.{
  CallCase, waiting, panicking, ended, next-CallCase, IsDrained,
}
use steampipe_postgres_fdw.Hub.Iterator.Channel.{Channel, Step-Channel}
use steampipe_postgres_fdw.Hub.Iterator.Order.{
  Sound, Step-Sound, Prefix, served, upcoming, in_flight, stream_rows,
}
use steampipe_postgres_fdw.Hub.Iterator.Reader.{entering, Scan, Run, here, more, ThreadStep}

-- A scan whose iterator was started, with its thread at its entry.
abbrev pub begin : Iterator → List Received → Scan
begin it stream = record { iterator = it; reader = entering; stream = stream; delivered = [] }

module _ (unmarshal : String → Result String Value) (timestamp_string : String → String) where
  begin-Sound :
      (it : Iterator) (stream : List Received)
      → start none new_base_scan_iterator ≡ value it
      → Sound unmarshal timestamp_string (stream_rows stream) (begin it stream)
        × Channel (begin it stream)
  unfolding start new_base_scan_iterator upcoming in_flight stream_rows
  begin-Sound it stream e =
      subst
        (λ i.
          Sound unmarshal timestamp_string (stream_rows stream) (begin i stream)
          × Channel (begin i stream))
        (value_injective e)
        (
          record {
            taken = [];
            populated = refl;
            prefix = record { rest = stream_rows stream; joined = refl };
            exact = λ st. (refl, refl);
          },
          record {
            closed = λ c. cc;
            finished_closed = λ r. cc;
            bounded = omega arith;
            failure = λ q. cc;
            cancel = refl;
          },
        )

  Run-Sound :
      {all : List Row} {s t : Scan}
      → Run unmarshal timestamp_string s t
      → Sound unmarshal timestamp_string all s × Channel s
      → Sound unmarshal timestamp_string all t × Channel t
  Run-Sound here h = h
  Run-Sound (more r st) h =
      let k = Run-Sound r h in
      (Step-Sound unmarshal timestamp_string st k.0, Step-Channel unmarshal timestamp_string st k.1)

  -- In every state that a started scan reaches, whatever the order of the thread's steps and the
  -- calls, the rows that Next has returned are the values of the first rows of the stream, in its
  -- order, none skipped and none twice.
  pub rows_in_order :
      (it : Iterator) (stream : List Received) (s : Scan)
      → start none new_base_scan_iterator ≡ value it
      → Run unmarshal timestamp_string (begin it stream) s
      → (taken : List Row) × (map (populate_row unmarshal timestamp_string) taken
          ≡ map value s.delivered)
        × Prefix taken (stream_rows stream)
  rows_in_order it stream s e r =
      let h = (Run-Sound r (begin-Sound it stream e)).0 in (h.taken, h.populated, h.prefix)

  drained-served : (s : Scan) → Channel s → IsDrained s.iterator → served (upcoming s) ≡ []
  unfolding served upcoming in_flight
  drained-served s h (inl d) = rw d.0 (ap (λ r. served (in_flight r s.stream)) (h.closed d.1))
  drained-served s h (inr d) = ap (λ l. served (l ++ in_flight s.reader s.stream)) d.1

  no_more-IsDrained :
      (it after : Iterator)
      → CallCase unmarshal timestamp_string it (returns no_more_rows after)
      → (it.status ≡ started) × IsDrained it
  no_more-IsDrained it after (ended _ st d ns f) = (st, d)

  -- When Next of a started scan reports that there are no more rows, every row of the stream has
  -- been returned: of those before the end of the stream and before a nil row, none is lost.
  pub no_row_lost :
      (it after : Iterator) (stream : List Received) (s : Scan)
      → start none new_base_scan_iterator ≡ value it
      → Run unmarshal timestamp_string (begin it stream) s
      → next unmarshal timestamp_string s.iterator ≡ returns no_more_rows after
      → map (populate_row unmarshal timestamp_string) (stream_rows stream) ≡ map value s.delivered
  no_row_lost it after stream s e r n =
      let h = Run-Sound r (begin-Sound it stream e) in
      let d = no_more-IsDrained s.iterator after (
        subst (CallCase unmarshal timestamp_string s.iterator) n
          (next-CallCase unmarshal timestamp_string s.iterator)) in
      ap (map (populate_row unmarshal timestamp_string)) (
        sym ((h.0.exact d.0).1)
        ∙ ap (λ l. h.0.taken ++ l) (drained-served s h.1 d.1)
        ∙ append-nil h.0.taken)
      ∙ h.0.populated

  call-panics : (s : Scan) → Channel s → ¬ CallCase unmarshal timestamp_string s.iterator panics
  call-panics s h (panicking n) = cc (n, h.cancel)

  call-waits :
      (it : Iterator)
      → CallCase unmarshal timestamp_string it waits
      → (it.rows ≡ []) × (it.closed ≡ false)
  call-waits it (waiting st e c) = (e, c)

  -- Next of a started scan never panics: its cancellation function is set.
  pub next_no_panic :
      (it : Iterator) (stream : List Received) (s : Scan)
      → start none new_base_scan_iterator ≡ value it
      → Run unmarshal timestamp_string (begin it stream) s
      → next unmarshal timestamp_string s.iterator ≢ panics
  next_no_panic it stream s e r p = call-panics s (Run-Sound r (begin-Sound it stream e)).1 (
      subst (CallCase unmarshal timestamp_string s.iterator) p
        (next-CallCase unmarshal timestamp_string s.iterator))

  -- What a call of Next can do: wait, return a row, say that there are no more, or return an error
  -- that is not nil.
  pub data Answered : Call → Type 0 where
    still_waiting : Answered waits
    with_row : (row : ResultRow) (after : Iterator) → Answered (returns (row_read row) after)
    at_end : (after : Iterator) → Answered (returns no_more_rows after)
    with_error : (e : ScanError) (after : Iterator) → Answered (returns (failed (some e)) after)

  -- No deadlock: when Next of a started scan waits, the thread has a step to take, as long as
  -- Recv still returns something, and that step leaves it fewer to take.
  pub no_deadlock :
      (it : Iterator) (stream : List Received) (s : Scan)
      → start none new_base_scan_iterator ≡ value it
      → Run unmarshal timestamp_string (begin it stream) s
      → s.stream ≢ []
      → next unmarshal timestamp_string s.iterator ≡ waits
      → (t : Scan) × ThreadStep s t × (rank t < rank s)
  no_deadlock it stream s e r ne w =
      let c = call-waits s.iterator (
        subst (CallCase unmarshal timestamp_string s.iterator) w
          (next-CallCase unmarshal timestamp_string s.iterator)) in
      let m = thread_moves s (Run-Sound r (begin-Sound it stream e)).1 ne c.0 c.1 s.reader refl in
      (m.0, m.1, ThreadStep-rank m.1)
