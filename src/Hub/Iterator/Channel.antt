-- ===== src/Hub/Iterator/Channel.antt =====
-- hub/scan_iterator_base.go: the channel `rows` between the thread that reads the stream and `Next`.
use steampipe_postgres_fdw.Prelude.{
  if◌then◌else◌, length, length-append, ◌==◌, nat_eq, string_eq, Result, ◌≤◌, ◌<◌, String, ◌≡◌,
  refl, sym, ◌∙◌, subst, inl, inr, Bool, true, false, Option, some, List, [], ◌∷◌, arith,
}
use steampipe_postgres_fdw.Hub.Iterator.Defs.{
  Iterator, QueryStatus, ready, started, error, complete, Received, response, nil_response,
  recv_error, ScanError, plugin_error, Value, Outcome, returns, is_eof, set_error, row_buffer_size,
}
use steampipe_postgres_fdw.Hub.Iterator.Calls.{
  Frame, CallCase, took, ended, broke, next-CallCase, close-keeps,
}
use steampipe_postgres_fdw.Hub.Iterator.Reader.{
  entering, reading, sending, finished, Scan, Step, thread, enters, receives, sees_cancel, sends,
  calls_next, calls_close, delivered_by, enter_in, enter_read_thread, read_plugin_result, send_row,
  stop_reading,
}

-- The thread closes the channel when it ends and only then; the buffer is not overrun; an
-- iterator in the error state has an error; the cancellation function is set.
pub record Channel (s : Scan) : Type 0 where
  pub closed : s.iterator.closed ≡ true → s.reader ≡ finished
  pub finished_closed : s.reader ≡ finished → s.iterator.closed ≡ true
  pub bounded : length s.iterator.rows ≤ row_buffer_size
  pub failure : s.iterator.status ≡ error → (e : ScanError) × (s.iterator.err ≡ some e)
  pub cancel : s.iterator.cancel ≡ true

stop_reading-Channel : {s : Scan} → Channel s → Channel (stop_reading s)
unfolding stop_reading
stop_reading-Channel h = record {
  closed = λ c. refl;
  finished_closed = λ r. refl;
  bounded = h.bounded;
  failure = h.failure;
  cancel = h.cancel;
}

enter_in-Channel :
    {s : Scan} (q : QueryStatus) → s.reader ≡ entering → Channel s → Channel (enter_in q s)
unfolding enter_in
enter_in-Channel started e h = record {
  closed = λ c. absurd (cc (h.closed c, e));
  finished_closed = λ r. cc;
  bounded = h.bounded;
  failure = h.failure;
  cancel = h.cancel;
}
enter_in-Channel ready e h = stop_reading-Channel h
enter_in-Channel error e h = stop_reading-Channel h
enter_in-Channel complete e h = stop_reading-Channel h

-- An iterator that failed, or met the end of the stream.
recv_error-Channel :
    {s : Scan} (b : Bool) (err : ScanError) (rest : List Received)
    → Channel s
    → Channel (
        stop_reading (record s {
          stream = rest;
          iterator = if b then s.iterator else record s.iterator { status = error; err = some err };
        }))
unfolding stop_reading
recv_error-Channel true err rest h = record {
  closed = λ c. refl;
  finished_closed = λ r. refl;
  bounded = h.bounded;
  failure = h.failure;
  cancel = h.cancel;
}
recv_error-Channel false err rest h = record {
  closed = λ c. refl;
  finished_closed = λ r. refl;
  bounded = h.bounded;
  failure = λ q. (err, refl);
  cancel = h.cancel;
}

read_plugin_result-Channel :
    {s : Scan} (m : Received) (rest : List Received)
    → s.reader ≡ reading
    → Channel s
    → Channel (read_plugin_result m (record s { stream = rest }))
unfolding read_plugin_result set_error is_eof stop_reading
read_plugin_result-Channel (response r) rest e h = record {
  closed = λ c. absurd (cc (h.closed c, e));
  finished_closed = λ q. cc;
  bounded = h.bounded;
  failure = h.failure;
  cancel = h.cancel;
}
read_plugin_result-Channel nil_response rest e h = record {
  closed = λ c. refl;
  finished_closed = λ r. refl;
  bounded = h.bounded;
  failure = h.failure;
  cancel = h.cancel;
}
read_plugin_result-Channel (recv_error message) rest e h =
    recv_error-Channel (message == "EOF") (plugin_error message) rest h

send_row-Channel :
    {s : Scan} {row : Option _}
    → s.reader ≡ sending row
    → length s.iterator.rows < row_buffer_size
    → Channel s
    → Channel (send_row row s)
unfolding send_row
send_row-Channel {s} {row} e b h = record {
  closed = λ c. absurd (cc (h.closed c, e));
  finished_closed = λ r. cc;
  bounded = omega (arith, length-append s.iterator.rows (row ∷ []));
  failure = h.failure;
  cancel = h.cancel;
}

Frame-Channel :
    {s : Scan} (after : Iterator) (l : List _)
    → Frame s.iterator after
    → Channel s
    → Channel (record s { iterator = after; delivered = l })
Frame-Channel after l f h = record {
  closed = λ c. h.closed (sym f.closed ∙ c);
  finished_closed = λ r. f.closed ∙ h.finished_closed r;
  bounded = omega (arith, f.shorter, h.bounded);
  failure = λ q. elim (f.failure q) [
    | inl old ↦ ((h.failure old.0).0, old.1 ∙ (h.failure old.0).1)
    | inr new ↦ new
  ];
  cancel = f.cancel ∙ h.cancel;
}

module _ (unmarshal : String → Result String Value) (timestamp_string : String → String) where
  call-Channel :
      {s : Scan} (o : Outcome) (after : Iterator)
      → CallCase unmarshal timestamp_string s.iterator (returns o after)
      → Channel s
      → Channel (record s { iterator = after; delivered = delivered_by o s.delivered })
  call-Channel _ _ (took row rows res st e p) h =
      Frame-Channel _ _
        (record {
          closed = refl;
          cancel = refl;
          shorter = rw e (omega arith);
          failure = λ q. inl (q, refl);
        })
        h
  call-Channel _ _ (ended after st d n f) h = Frame-Channel after _ f h
  call-Channel _ _ (broke e after n f g) h = Frame-Channel after _ f h

  pub Step-Channel : {s t : Scan} → Step unmarshal timestamp_string s t → Channel s → Channel t
  unfolding enter_read_thread
  Step-Channel (thread (enters s e)) h = enter_in-Channel s.iterator.status e h
  Step-Channel (thread (receives s m rest e f)) h = read_plugin_result-Channel m rest e h
  Step-Channel (thread (sees_cancel s e c)) h = stop_reading-Channel h
  Step-Channel (thread (sends s row e b)) h = send_row-Channel e b h
  Step-Channel (calls_next s o after e) h =
      call-Channel o after
        (subst (CallCase unmarshal timestamp_string s.iterator) e
          (next-CallCase unmarshal timestamp_string s.iterator))
        h
  Step-Channel (calls_close s after e) h =
      let k = close-keeps s.iterator after e in
      Frame-Channel after s.delivered
        (record {
          closed = k.0.0;
          cancel = k.1.0;
          shorter = rw k.0.1 (omega arith);
          failure = λ q. inl (k.2 q, k.1.1);
        })
        h
