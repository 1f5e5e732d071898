-- ===== src/Hub/Iterator/Tests.antt =====
-- The scan iterator on a stream of two rows: the thread and Postgres in one order.
use steampipe_postgres_fdw.Prelude.{
  nat_eq, string_eq, Result, value, ◌<◌, String, ◌≡◌, refl, true, false, none, some, List, [], ◌∷◌,
  map, arith,
}
use steampipe_postgres_fdw.Prelude.Int.{pos}
use steampipe_postgres_fdw.Prelude.GoMap.{insert}
use steampipe_postgres_fdw.Hub.Iterator.Defs.{
  error, plugin_error, set_error, is_eof, Iterator, started, complete, Received, response,
  recv_error, Row, json, null_field, scalar, Value, int_value, json_document, no_more_rows,
  row_read, failed, waits, returns, next, close, populate_row, ResultRow, populate_columns,
  column_value, start, new_base_scan_iterator, is_error, can_iterate, receive_row, deliver,
  return_populated, finish,
}
use steampipe_postgres_fdw.Hub.Iterator.Delivery.{begin, rows_in_order, no_row_lost, no_deadlock}
use steampipe_postgres_fdw.Hub.Iterator.Order.{Prefix, stream_rows}
use steampipe_postgres_fdw.Hub.Iterator.Progress.{rank}
use steampipe_postgres_fdw.Hub.Iterator.Reader.{
  reading, finished, Scan, ThreadStep, thread, enters, receives, sends, calls_next, Run, here, more,
  enter_in, enter_read_thread, read_plugin_result, send_row, delivered_by, stop_reading,
}

abbrev parse : String → Result String Value
parse s = value (json_document s)

abbrev rfc3339 : String → String
rfc3339 s = s

abbrev first : Row
first = ("id", json (some "1")) ∷ ("note", null_field) ∷ []

abbrev second : Row
second = ("id", scalar (int_value (pos 2))) ∷ []

abbrev respond : Row → Received
respond row = response (record { connection = "aws"; row = some row; hydrate_calls = pos 1 })

abbrev two_rows : List Received
two_rows = respond first ∷ respond second ∷ recv_error "EOF" ∷ []

abbrev live : Iterator
live = record {
  status = started;
  err = none;
  rows = [];
  closed = false;
  scan_metadata = [];
  cancel = true;
  cancelled = false;
}

-- The scan after the thread has sent both rows and met the end of the stream.
abbrev all_sent : Scan
all_sent = record {
  iterator = record live {
    rows = some first ∷ some second ∷ [];
    closed = true;
    scan_metadata = ("aws", pos 1) ∷ [];
  };
  reader = finished;
  stream = [];
  delivered = [];
}

abbrev all_read : Scan
all_read = record all_sent {
  iterator = record live { closed = true; scan_metadata = ("aws", pos 1) ∷ [] };
  delivered =
      (("id", json_document "1") ∷ ("note", Value.nil_value) ∷ [])
      ∷ (("id", int_value (pos 2)) ∷ [])
      ∷ [];
}

started_live : start none new_base_scan_iterator ≡ value live
unfolding start new_base_scan_iterator
started_live = refl

read_one :
    Run parse rfc3339 (begin live two_rows) (record (begin live two_rows) { reader = reading })
unfolding enter_read_thread enter_in
read_one = more here (thread (enters _ refl))

to_all_sent : Run parse rfc3339 (begin live two_rows) all_sent
unfolding read_plugin_result send_row stop_reading insert set_error is_eof
to_all_sent =
    more
      (more
        (more
          (more (more read_one (thread (receives _ _ _ refl refl)))
            (thread (sends _ (some first) refl (omega arith))))
          (thread (receives _ _ _ refl refl)))
        (thread (sends _ (some second) refl (omega arith))))
      (thread (receives _ _ _ refl refl))

to_all_read : Run parse rfc3339 (begin live two_rows) all_read
unfolding next insert set_error delivered_by deliver return_populated populate_row populate_columns
    column_value is_error can_iterate receive_row
to_all_read =
    more (more to_all_sent (calls_next _ (row_read _) _ refl)) (calls_next _ (row_read _) _ refl)

ends :
    next parse rfc3339 all_read.iterator
    ≡ returns no_more_rows (record live {
      closed = true;
      scan_metadata = ("aws", pos 1) ∷ [];
      cancelled = true;
      status = complete;
    })
unfolding next finish close is_error can_iterate receive_row
ends = refl

waits_first : next parse rfc3339 live ≡ waits
unfolding next is_error can_iterate receive_row
waits_first = refl

rows_in_order_example :
    (taken : List Row) × (map (populate_row parse rfc3339) taken ≡ map value all_read.delivered)
    × Prefix taken (stream_rows two_rows)
rows_in_order_example = rows_in_order parse rfc3339 live two_rows all_read started_live to_all_read

no_row_lost_example :
    map (populate_row parse rfc3339) (stream_rows two_rows) ≡ map value all_read.delivered
no_row_lost_example =
    no_row_lost parse rfc3339 live _ two_rows all_read started_live to_all_read ends

-- The stream breaks before its first row.
abbrev broken : Scan
broken = record {
  iterator = record live { status = error; err = some (plugin_error "unavailable"); closed = true };
  reader = finished;
  stream = [];
  delivered = [];
}

abbrev broken_stream : List Received
broken_stream = recv_error "unavailable" ∷ []

broken_next :
    next parse rfc3339 broken.iterator
    ≡ returns (failed (some (plugin_error "unavailable"))) broken.iterator
unfolding next is_error
broken_next = refl

no_deadlock_example :
    (t : Scan) × ThreadStep (begin live two_rows) t × (rank t < rank (begin live two_rows))
no_deadlock_example =
    no_deadlock parse rfc3339 live two_rows (begin live two_rows) started_live here (λ e. cc)
      waits_first

abbrev table : List ResultRow
table = (("scan_count", int_value (pos 3)) ∷ []) ∷ (("duration_ms", int_value (pos 7)) ∷ []) ∷ []
