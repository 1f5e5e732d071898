-- ===== src/Hub/Iterator/Defs.antt =====
-- hub/scan_iterator_base.go: the state of a scan, `Next`, `Close`, `Start` and the steps of the
-- thread that reads the plugin's stream. A `nil` of Go is `none`.
use steampipe_postgres_fdw.Prelude.{
  ℕ, String, Bool, true, false, Option, none, some, List, [], ◌∷◌, if◌then◌else◌, ◌==◌, string_eq,
  Go, ok, panic, Result, value, fail,
}
use steampipe_postgres_fdw.Prelude.Int.{ℤ}
use steampipe_postgres_fdw.Prelude.GoMap.{GoMap, insert}

pub data QueryStatus : Type 0 where
  ready : QueryStatus
  started : QueryStatus
  error : QueryStatus
  complete : QueryStatus

-- A value that a row hands to Postgres: `interface{}`, with decoded JSON kept as its text.
pub data Value : Type 0 where
  nil_value : Value
  empty_bytes : Value
  bool_value : Bool → Value
  int_value : ℤ → Value
  string_value : String → Value
  json_document : String → Value

-- proto.Column: one of its fields is set, or none is. The bytes of a JSON value may be nil.
pub data Column : Type 0 where
  json : Option String → Column
  timestamp : String → Column
  null_field : Column
  scalar : Value → Column
  unset : Column

-- proto.Row
abbrev pub Row : Type 0
Row = GoMap String Column

abbrev pub ResultRow : Type 0
ResultRow = GoMap String Value

-- proto.ExecuteResponse
pub record ExecuteResponse : Type 0 where
  pub connection : String
  pub row : Option Row
  pub hydrate_calls : ℤ

-- What `pluginRowStream.Recv` returns; a panic in it is caught and becomes an error.
pub data Received : Type 0 where
  response : ExecuteResponse → Received
  nil_response : Received
  recv_error : String → Received

-- The errors of a scan, in place of their messages.
pub data ScanError : Type 0 where
  plugin_error : String → ScanError
  column_error : String → String → ScanError
  cannot_iterate : QueryStatus → ScanError

-- The channel `rows` is the list `rows` of what is in its buffer and the flag `closed`.
-- Of the scan metadata of a connection only the hydrate calls are kept here.
-- `cancel` says whether `i.cancel` is set, and `cancelled` whether it was called.
pub record Iterator : Type 0 where
  pub status : QueryStatus
  pub err : Option ScanError
  pub rows : List (Option Row)
  pub closed : Bool
  pub scan_metadata : GoMap String ℤ
  pub cancel : Bool
  pub cancelled : Bool

abbrev pub row_buffer_size : ℕ
row_buffer_size = 100

-- The fields of newBaseScanIterator that change later.
unfoldable pub new_base_scan_iterator : Iterator
new_base_scan_iterator = record {
  status = ready;
  err = none;
  rows = [];
  closed = false;
  scan_metadata = [];
  cancel = false;
  cancelled = false;
}

unfoldable pub is_error : QueryStatus → Bool
is_error error = true
is_error ready = false
is_error started = false
is_error complete = false

unfoldable pub can_iterate : QueryStatus → Bool
can_iterate error = false
can_iterate ready = false
can_iterate complete = false
can_iterate started = true

-- err.Error() == "EOF"
unfoldable pub is_eof : ScanError → Bool
is_eof (plugin_error message) = message == "EOF"
is_eof (column_error name message) = false
is_eof (cannot_iterate status) = false

-- if there is an error other than EOF, save error and set state to QueryStatusError
unfoldable pub set_error : ScanError → Iterator → Iterator
unfolding is_eof
set_error e it = if is_eof e then it else record it { status = error; err = some e }

-- Close: calls the cancellation function, which panics if the iterator was never started.
unfoldable pub close : Iterator → Go Iterator
unfolding is_error
close it =
    if it.cancel
    then ok
        (record it { cancelled = true; status = if is_error it.status then error else complete })
    else panic

-- Start: `execute` of the executor returned an error, or a stream with its cancellation function.
unfoldable pub start : Option String → Iterator → Result String Iterator
start (some e) it = fail e
start none it = value (record it { status = started; cancel = true })

-- What a call of Next comes to: a row, the end of the rows, or an error.
pub data Outcome : Type 0 where
  row_read : ResultRow → Outcome
  no_more_rows : Outcome
  failed : Option ScanError → Outcome

-- Next waits while the channel is open and empty.
pub data Call : Type 0 where
  waits : Call
  returns : Outcome → Iterator → Call
  panics : Call

-- json.Unmarshal and ptypes.TimestampString.
module _ (unmarshal : String → Result String Value) (timestamp_string : String → String) where
  unfoldable pub column_value : Column → Result String Value
  column_value (json (some bytes)) = unmarshal bytes
  -- nil bytes: the field that is set is read as it is
  column_value (json none) = value empty_bytes
  column_value (timestamp t) = value (string_value (timestamp_string t))
  column_value null_field = value nil_value
  column_value (scalar v) = value v
  column_value unset = value nil_value

  -- populateRow, without its setError: the first column that fails ends the loop.
  unfoldable pub populate_columns : Row → ResultRow → Result (String × String) ResultRow
  unfolding column_value
  populate_columns [] res = value res
  populate_columns ((name, column) ∷ row) res = elim (column_value column) [
    | value v ↦ populate_columns row (insert name v res)
    | fail e ↦ fail (name, e)
  ]

  unfoldable pub populate_row : Row → Result (String × String) ResultRow
  unfolding populate_columns
  populate_row row = populate_columns row []

  -- The nil row, of a closed channel or sent as such, ends the scan.
  unfoldable pub finish : Iterator → Call
  unfolding close
  finish it = elim (close it) [
    | panic ↦ panics
    | ok closed_it ↦
        if is_error closed_it.status
        then returns (failed closed_it.err) closed_it
        else returns no_more_rows closed_it
  ]

  unfoldable pub return_populated : Result (String × String) ResultRow → Iterator → Call
  unfolding set_error is_eof
  return_populated (value res) it = returns (row_read res) it
  return_populated (fail e) it =
      returns (failed (some (column_error e.0 e.1))) (set_error (column_error e.0 e.1) it)

  unfoldable pub deliver : Row → Iterator → Call
  unfolding return_populated
  deliver row it = return_populated (populate_row row) it

  -- row := <-i.rows, and what follows. The hub's RemoveIterator is in the model of the hub.
  unfoldable pub receive_row : List (Option Row) → Iterator → Call
  unfolding finish deliver
  receive_row [] it = if it.closed then finish it else waits
  receive_row (none ∷ rows) it = finish (record it { rows = rows })
  receive_row (some row ∷ rows) it = deliver row (record it { rows = rows })

  unfoldable pub next : Iterator → Call
  unfolding receive_row is_error can_iterate
  next it =
      if is_error it.status
      then returns (failed it.err) it
      else if can_iterate it.status
      then receive_row it.rows it
      else returns (failed (some (cannot_iterate it.status))) it
