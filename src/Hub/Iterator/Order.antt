-- ===== src/Hub/Iterator/Order.antt =====
-- hub/scan_iterator_base.go: the rows that `Next` returns are those of the stream, in its order.
use steampipe_postgres_fdw.Prelude.{
  if◌then◌else◌, ◌==◌, nat_eq, string_eq, Result, value, String, ◌≡◌, refl, sym, ap, ◌∙◌, subst,
  ◌≢◌, Bool, true, false, Option, none, some, List, [], ◌∷◌, ◌++◌, map,
}
use mathlib.Core.List.{append_assoc, map-append}
use steampipe_postgres_fdw.Hub.Iterator.Defs.{
  Iterator, QueryStatus, ready, started, error, complete, Received, response, nil_response,
  recv_error, Row, ResultRow, ScanError, plugin_error, Value, Outcome, returns, is_eof, set_error,
  populate_row,
}
use steampipe_postgres_fdw.Hub.Iterator.Calls.{
  CallCase, took, ended, broke, next-CallCase, close-stops,
}
use steampipe_postgres_fdw.Hub.Iterator.Reader.{
  Reader, entering, reading, sending, finished, Scan, Step, thread, enters, receives, sees_cancel,
  sends, calls_next, calls_close, delivered_by, enter_in, enter_read_thread, read_plugin_result,
  send_row, stop_reading,
}

-- The rows before the first nil row, which ends a scan.
unfoldable pub served : List (Option Row) → List Row
served [] = []
served (none ∷ l) = []
served (some r ∷ l) = r ∷ served l

-- What the thread puts into the channel for a stream.
unfoldable pub messages : List Received → List (Option Row)
messages [] = []
messages (response r ∷ l) = r.row ∷ messages l
messages (nil_response ∷ l) = []
messages (recv_error e ∷ l) = []

unfoldable pub stream_rows : List Received → List Row
unfolding served messages
stream_rows stream = served (messages stream)

unfoldable pub in_flight : Reader → List Received → List (Option Row)
unfolding messages
in_flight entering stream = messages stream
in_flight reading stream = messages stream
in_flight (sending row) stream = row ∷ messages stream
in_flight finished stream = []

unfoldable pub upcoming : Scan → List (Option Row)
unfolding in_flight
upcoming s = s.iterator.rows ++ in_flight s.reader s.stream

pub record Prefix (xs ys : List Row) : Type 0 where
  pub rest : List Row
  pub joined : xs ++ rest ≡ ys

module _ (unmarshal : String → Result String Value) (timestamp_string : String → String) where
  -- `taken` are the rows whose values were delivered. While the scan runs, no row is lost.
  pub record Sound (all : List Row) (s : Scan) : Type 0 where
    pub taken : List Row
    pub populated : map (populate_row unmarshal timestamp_string) taken ≡ map value s.delivered
    pub prefix : Prefix taken all
    pub exact :
        s.iterator.status ≡ started
        → (s.iterator.cancelled ≡ false) × (taken ++ served (upcoming s) ≡ all)

  -- How the invariant passes on where the scan no longer runs.
  Sound-stop :
      {all : List Row} (s t : Scan)
      → s.delivered ≡ t.delivered
      → t.iterator.status ≢ started
      → Sound all s
      → Sound all t
  Sound-stop s t d n h = record {
    taken = h.taken;
    populated = h.populated ∙ ap (map value) d;
    prefix = h.prefix;
    exact = λ st. absurd (n st);
  }

  -- How it passes on where the rows to come stay as they are.
  Sound-move :
      {all : List Row} (s t : Scan)
      → s.delivered ≡ t.delivered
      → s.iterator.status ≡ t.iterator.status
      → s.iterator.cancelled ≡ t.iterator.cancelled
      → upcoming t ≡ upcoming s
      → Sound all s
      → Sound all t
  Sound-move s t d q c u h = record {
    taken = h.taken;
    populated = h.populated ∙ ap (map value) d;
    prefix = h.prefix;
    exact = λ st. let x = h.exact (q ∙ st) in (sym c ∙ x.0, ap (λ l. h.taken ++ served l) u ∙ x.1);
  }

  in_flight-at :
      (r r' : Reader) (l l' : List Received) → r ≡ r' → l ≡ l' → in_flight r l ≡ in_flight r' l'
  in_flight-at r r' l l' e f = cc

  enter_in-Sound :
      {all : List Row} (q : QueryStatus) (s : Scan)
      → s.iterator.status ≡ q
      → s.reader ≡ entering
      → Sound all s
      → Sound all (enter_in q s)
  unfolding enter_in upcoming stop_reading
  enter_in-Sound started s q e h =
      Sound-move s (record s { reader = reading }) refl refl refl
        (ap (λ r. s.iterator.rows ++ in_flight r s.stream) (sym e)) h
  enter_in-Sound ready s q e h = Sound-stop s (stop_reading s) refl (λ p. cc (q, p)) h
  enter_in-Sound error s q e h = Sound-stop s (stop_reading s) refl (λ p. cc (q, p)) h
  enter_in-Sound complete s q e h = Sound-stop s (stop_reading s) refl (λ p. cc (q, p)) h

  -- `b` says whether the error is an EOF.
  recv_error-Sound :
      {all : List Row} (b : Bool) (err : ScanError) (s : Scan) (rest : List Received)
      (message : String)
      → s.reader ≡ reading
      → s.stream ≡ recv_error message ∷ rest
      → Sound all s
      → Sound all (
          stop_reading (record s {
            stream = rest;
            iterator =
                if b then s.iterator else record s.iterator { status = error; err = some err };
          }))
  unfolding stop_reading upcoming in_flight messages
  recv_error-Sound true err s rest message e f h =
      Sound-move s _ refl refl refl
        (ap (λ l. s.iterator.rows ++ l) (sym (in_flight-at s.reader reading s.stream _ e f))) h
  recv_error-Sound false err s rest message e f h = Sound-stop s _ refl (λ p. cc) h

  read_plugin_result-Sound :
      {all : List Row} (s : Scan) (m : Received) (rest : List Received)
      → s.reader ≡ reading
      → s.stream ≡ m ∷ rest
      → Sound all s
      → Sound all (read_plugin_result m (record s { stream = rest }))
  unfolding read_plugin_result upcoming stop_reading set_error is_eof in_flight messages
  read_plugin_result-Sound s (response r) rest e f h =
      Sound-move s _ refl refl refl
        (ap (λ l. s.iterator.rows ++ l) (sym (in_flight-at s.reader reading s.stream _ e f))) h
  read_plugin_result-Sound s nil_response rest e f h =
      Sound-move s _ refl refl refl
        (ap (λ l. s.iterator.rows ++ l) (sym (in_flight-at s.reader reading s.stream _ e f))) h
  read_plugin_result-Sound s (recv_error message) rest e f h =
      recv_error-Sound (message == "EOF") (plugin_error message) s rest message e f h

  send_row-Sound :
      {all : List Row} (s : Scan) (row : Option Row)
      → s.reader ≡ sending row
      → Sound all s
      → Sound all (send_row row s)
  unfolding send_row upcoming in_flight
  send_row-Sound s row e h =
      Sound-move s _ refl refl refl
        (append_assoc s.iterator.rows (row ∷ []) (messages s.stream)
          ∙ ap (λ r. s.iterator.rows ++ in_flight r s.stream) (sym e))
        h

  took-Sound :
      {all : List Row} (s : Scan) (row : Row) (rows : List (Option Row)) (res : ResultRow)
      → s.iterator.status ≡ started
      → s.iterator.rows ≡ some row ∷ rows
      → populate_row unmarshal timestamp_string row ≡ value res
      → Sound all s
      → Sound all (record s {
        iterator = record s.iterator { rows = rows };
        delivered = s.delivered ++ res ∷ [];
      })
  unfolding upcoming served
  took-Sound {all} s row rows res st e p h =
      let fl = in_flight s.reader s.stream in
      let joined : (h.taken ++ row ∷ []) ++ served (rows ++ fl) ≡ all =
        append_assoc h.taken (row ∷ []) (served (rows ++ fl))
        ∙ ap (λ l. h.taken ++ served (l ++ fl)) (sym e)
        ∙ (h.exact st).1 in
      record {
        taken = h.taken ++ row ∷ [];
        populated =
            map-append _ h.taken (row ∷ [])
            ∙ ap (λ l. l ++ populate_row unmarshal timestamp_string row ∷ []) h.populated
            ∙ ap (λ r. map value s.delivered ++ r ∷ []) p
            ∙ sym (map-append value s.delivered (res ∷ []));
        prefix = record { rest = served (rows ++ fl); joined = joined };
        exact = λ st'. ((h.exact st).0, joined);
      }

  call-Sound :
      {all : List Row} (s : Scan) (o : Outcome) (after : Iterator)
      → CallCase unmarshal timestamp_string s.iterator (returns o after)
      → Sound all s
      → Sound all (record s { iterator = after; delivered = delivered_by o s.delivered })
  unfolding delivered_by
  call-Sound s _ _ (took row rows res st e p) h = took-Sound s row rows res st e p h
  call-Sound s _ _ (ended after st d n f) h = Sound-stop s _ refl n h
  call-Sound s _ _ (broke err after n f e) h = Sound-stop s _ refl n h

  pub Step-Sound :
      {all : List Row} {s t : Scan}
      → Step unmarshal timestamp_string s t
      → Sound all s
      → Sound all t
  unfolding enter_read_thread stop_reading
  Step-Sound (thread (enters s e)) h = enter_in-Sound s.iterator.status s refl e h
  Step-Sound (thread (receives s m rest e f)) h = read_plugin_result-Sound s m rest e f h
  Step-Sound (thread (sees_cancel s e c)) h = Sound-stop s _ refl (λ st. cc (c, (h.exact st).0)) h
  Step-Sound (thread (sends s row e b)) h = send_row-Sound s row e h
  Step-Sound (calls_next s o after e) h =
      call-Sound s o after
        (subst (CallCase unmarshal timestamp_string s.iterator) e
          (next-CallCase unmarshal timestamp_string s.iterator))
        h
  Step-Sound (calls_close s after e) h = Sound-stop s _ refl (close-stops s.iterator after e).1 h
