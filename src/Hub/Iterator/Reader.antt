-- ===== src/Hub/Iterator/Reader.antt =====
-- hub/scan_iterator_base.go: the thread that reads the stream, beside the calls of Postgres.
use steampipe_postgres_fdw.Prelude.{
  length, nat_eq, string_eq, ok, Result, ◌<◌, String, ◌≡◌, true, Option, List, [], ◌∷◌, ◌++◌,
}
use steampipe_postgres_fdw.Prelude.GoMap.{insert}
use steampipe_postgres_fdw.Hub.Iterator.Defs.{
  Iterator, QueryStatus, ready, started, error, complete, Received, response, nil_response,
  recv_error, Row, plugin_error, set_error, row_buffer_size, Value, Outcome, row_read, no_more_rows,
  failed, returns, next, close, ResultRow,
}

-- Where the thread stands: at the test of the status, at a select, at `i.rows <- row`, or behind
-- `close(i.rows)`.
pub data Reader : Type 0 where
  entering : Reader
  reading : Reader
  sending : Option Row → Reader
  finished : Reader

-- A started scan: the iterator, its thread, what the stream has still to return, and the rows
-- that Next has returned so far.
pub record Scan : Type 0 where
  pub iterator : Iterator
  pub reader : Reader
  pub stream : List Received
  pub delivered : List ResultRow

unfoldable pub stop_reading : Scan → Scan
stop_reading s = record s { reader = finished; iterator = record s.iterator { closed = true } }

-- readThread: skip if the iterator is not in a started state.
unfoldable pub enter_in : QueryStatus → Scan → Scan
unfolding stop_reading
enter_in started s = record s { reader = reading }
enter_in ready s = stop_reading s
enter_in error s = stop_reading s
enter_in complete s = stop_reading s

unfoldable pub enter_read_thread : Scan → Scan
unfolding enter_in
enter_read_thread s = enter_in s.iterator.status s

-- readPluginResult, when Recv has returned: the metadata of the connection is overwritten, then
-- the row is on its way to the channel.
unfoldable pub read_plugin_result : Received → Scan → Scan
unfolding stop_reading set_error
read_plugin_result (response r) s = record s {
  reader = sending r.row;
  iterator = record s.iterator {
    scan_metadata = insert r.connection r.hydrate_calls s.iterator.scan_metadata;
  };
}
read_plugin_result nil_response s = stop_reading s
read_plugin_result (recv_error e) s =
    stop_reading (record s { iterator = set_error (plugin_error e) s.iterator })

unfoldable pub send_row : Option Row → Scan → Scan
send_row row s = record s {
  reader = reading;
  iterator = record s.iterator { rows = s.iterator.rows ++ row ∷ [] };
}

-- The rows that Next has returned, after one more call.
unfoldable pub delivered_by : Outcome → List ResultRow → List ResultRow
delivered_by (row_read r) l = l ++ r ∷ []
delivered_by no_more_rows l = l
delivered_by (failed e) l = l

-- What the thread may do.
pub data ThreadStep : Scan → Scan → Type 0 where
  enters : (s : Scan) → s.reader ≡ entering → ThreadStep s (enter_read_thread s)
  receives :
      (s : Scan) (m : Received) (rest : List Received)
      → s.reader ≡ reading
      → s.stream ≡ m ∷ rest
      → ThreadStep s (read_plugin_result m (record s { stream = rest }))
  -- case <-ctx.Done()
  sees_cancel :
      (s : Scan) → s.reader ≡ reading → s.iterator.cancelled ≡ true → ThreadStep s (stop_reading s)
  sends :
      (s : Scan) (row : Option Row)
      → s.reader ≡ sending row
      → length s.iterator.rows < row_buffer_size
      → ThreadStep s (send_row row s)

module _ (unmarshal : String → Result String Value) (timestamp_string : String → String) where
  -- The thread and Postgres take turns in any order.
  pub data Step : Scan → Scan → Type 0 where
    thread : {s t : Scan} → ThreadStep s t → Step s t
    calls_next :
        (s : Scan) (o : Outcome) (after : Iterator)
        → next unmarshal timestamp_string s.iterator ≡ returns o after
        → Step s (record s { iterator = after; delivered = delivered_by o s.delivered })
    -- EndScan and Abort
    calls_close :
        (s : Scan) (after : Iterator)
        → close s.iterator ≡ ok after
        → Step s (record s { iterator = after })

  pub data Run (s : Scan) : Scan → Type 0 where
    here : Run s s
    more : {t u : Scan} → Run s t → Step t u → Run s u
