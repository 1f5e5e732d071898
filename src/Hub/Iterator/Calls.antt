-- ===== src/Hub/Iterator/Calls.antt =====
-- hub/scan_iterator_base.go: what a call of `Next` or of `Close` comes to.
use steampipe_postgres_fdw.Prelude.{
  if◌then◌else◌, Bool-cases, length, nat_eq, string_eq, ok, panic, ok_injective, Result, value,
  fail, ◌≤◌, String, ◌≡◌, refl, ap, subst, ◌≢◌, ◌⊎◌, inl, inr, Bool, true, false, Option, none,
  some, List, [], ◌∷◌, arith,
}
use steampipe_postgres_fdw.Hub.Iterator.Defs.{
  Iterator, QueryStatus, ready, started, error, complete, Row, ResultRow, ScanError, column_error,
  cannot_iterate, Value, row_read, no_more_rows, failed, Call, waits, returns, panics, next, finish,
  deliver, return_populated, receive_row, close, is_error, can_iterate, populate_row,
}

is_error-status : (q : QueryStatus) → is_error q ≡ true → q ≡ error
unfolding is_error
is_error-status error h = refl
is_error-status ready h = cc
is_error-status started h = cc
is_error-status complete h = cc

can_iterate-status : (q : QueryStatus) → can_iterate q ≡ true → q ≡ started
unfolding can_iterate
can_iterate-status started h = refl
can_iterate-status ready h = cc
can_iterate-status error h = cc
can_iterate-status complete h = cc

not-started : (q : QueryStatus) → can_iterate q ≡ false → q ≢ started
unfolding can_iterate
not-started q h p = cc (ap can_iterate p)

after_close : (q : QueryStatus) → (if is_error q then error else complete) ≢ started
after_close q = elim (Bool-cases (is_error q)) [ inl y ↦ rw y (λ p. cc) | inr n ↦ rw n (λ p. cc) ]

after_close_error :
    (q : QueryStatus) → is_error (if is_error q then error else complete) ≡ true → is_error q ≡ true
unfolding is_error
after_close_error error h = refl
after_close_error ready h = cc
after_close_error started h = cc
after_close_error complete h = cc

-- The iterator after a call, against the one before.
pub record Frame (it after : Iterator) : Type 0 where
  pub closed : after.closed ≡ it.closed
  pub cancel : after.cancel ≡ it.cancel
  pub shorter : length after.rows ≤ length it.rows
  pub failure :
      after.status ≡ error
      → ((it.status ≡ error) × (after.err ≡ it.err)) ⊎ ((e : ScanError) × (after.err ≡ some e))

-- The thread has closed the channel and all rows are read, or a nil row is next.
abbrev pub IsDrained : Iterator → Type 0
IsDrained it =
    ((it.rows ≡ []) × (it.closed ≡ true)) ⊎ ((rows : List (Option Row)) × (it.rows ≡ none ∷ rows))

module _ (unmarshal : String → Result String Value) (timestamp_string : String → String) where
  -- What a call of Next comes to.
  pub data CallCase (it : Iterator) : Call → Type 0 where
    waiting : it.status ≡ started → it.rows ≡ [] → it.closed ≡ false → CallCase it waits
    panicking : it.cancel ≡ false → CallCase it panics
    took :
        (row : Row) (rows : List (Option Row)) (res : ResultRow)
        → it.status ≡ started
        → it.rows ≡ some row ∷ rows
        → populate_row unmarshal timestamp_string row ≡ value res
        → CallCase it (returns (row_read res) (record it { rows = rows }))
    ended :
        (after : Iterator)
        → it.status ≡ started
        → IsDrained it
        → after.status ≢ started
        → Frame it after
        → CallCase it (returns no_more_rows after)
    broke :
        (e : Option ScanError) (after : Iterator)
        → after.status ≢ started
        → Frame it after
        → ((it.status ≡ error) × (e ≡ it.err)) ⊎ ((f : ScanError) × (e ≡ some f))
        → CallCase it (returns (failed e) after)

  if-CallCase :
      {it : Iterator} (b : Bool) (x y : Call)
      → (b ≡ true → CallCase it x)
      → (b ≡ false → CallCase it y)
      → CallCase it (if b then x else y)
  if-CallCase true x y f g = f refl
  if-CallCase false x y f g = g refl

  -- `rows` are the rows of the iterator, less the nil row that was read.
  finish-CallCase :
      (it : Iterator) (rows : List (Option Row))
      → it.status ≡ started
      → IsDrained it
      → length rows ≤ length it.rows
      → CallCase it (finish unmarshal timestamp_string (record it { rows = rows }))
  unfolding finish close is_error
  finish-CallCase it rows st d short = elim (Bool-cases it.cancel) [
    | inr n ↦ rw (n, finish) (panicking refl)
    | inl c ↦
        rw (c, finish)
          (if-CallCase (is_error (if is_error it.status then error else complete)) _ _
            (λ y. absurd (cc (is_error-status _ (after_close_error it.status y), st)))
            (λ n. ended _ st d (after_close it.status) (record {
              closed = refl;
              cancel = refl;
              shorter = short;
              failure = λ q.
                  absurd (cc (is_error-status _ (after_close_error it.status (ap is_error q)), st));
            })))
  ]

  return_populated-CallCase :
      (it : Iterator) (row : Row) (rows : List (Option Row))
      (r : Result (String × String) ResultRow)
      → it.status ≡ started
      → it.rows ≡ some row ∷ rows
      → populate_row unmarshal timestamp_string row ≡ r
      → CallCase it (return_populated unmarshal timestamp_string r (record it { rows = rows }))
  unfolding return_populated
  return_populated-CallCase it row rows (value res) st e p = took row rows res st e p
  return_populated-CallCase it row rows (fail f) st e p =
      broke _ _ (λ q. cc)
        (record {
          closed = refl;
          cancel = refl;
          shorter = rw e (omega arith);
          failure = λ q. inr (column_error f.0 f.1, refl);
        })
        (inr (column_error f.0 f.1, refl))

  receive_row-CallCase :
      (it : Iterator) (rows : List (Option Row))
      → it.status ≡ started
      → it.rows ≡ rows
      → CallCase it (receive_row unmarshal timestamp_string rows it)
  unfolding receive_row deliver
  receive_row-CallCase it [] st e =
      if-CallCase it.closed _ _ (λ y. finish-CallCase it it.rows st (inl (e, y)) (omega arith))
        (λ n. waiting st e n)
  receive_row-CallCase it (none ∷ rows) st e =
      finish-CallCase it rows st (inr (rows, e)) (rw e (omega arith))
  receive_row-CallCase it (some row ∷ rows) st e = return_populated-CallCase it row rows _ st e refl

  Frame-refl : (it : Iterator) → Frame it it
  Frame-refl it = record {
    closed = refl;
    cancel = refl;
    shorter = omega arith;
    failure = λ q. inl (q, refl);
  }

  pub next-CallCase : (it : Iterator) → CallCase it (next unmarshal timestamp_string it)
  unfolding next is_error
  next-CallCase it =
      if-CallCase (is_error it.status) _ _
        (λ y.
          broke it.err it (λ p. cc (is_error-status it.status y, p)) (Frame-refl it)
            (inl (is_error-status it.status y, refl)))
        (λ n.
          if-CallCase (can_iterate it.status) _ _
            (λ y. receive_row-CallCase it it.rows (can_iterate-status it.status y) refl)
            (λ m.
              broke (some (cannot_iterate it.status)) it (not-started it.status m) (Frame-refl it)
                (inr (cannot_iterate it.status, refl))))

if-ok : (b : Bool) (it after : Iterator) → (if b then ok it else panic) ≡ ok after → it ≡ after
if-ok true it after e = ok_injective e
if-ok false it after e = cc

pub close-keeps :
    (it after : Iterator)
    → close it ≡ ok after
    → ((after.closed ≡ it.closed) × (after.rows ≡ it.rows))
      × ((after.cancel ≡ it.cancel) × (after.err ≡ it.err))
      × (after.status ≡ error → it.status ≡ error)
unfolding close is_error
close-keeps it after e =
    subst
      (λ a.
        ((a.closed ≡ it.closed) × (a.rows ≡ it.rows))
        × ((a.cancel ≡ it.cancel) × (a.err ≡ it.err))
        × (a.status ≡ error → it.status ≡ error))
      (if-ok it.cancel _ after e)
      ((refl, refl), (refl, refl), (λ q. is_error-status _ (after_close_error _ (ap is_error q))))

pub close-stops :
    (it after : Iterator)
    → close it ≡ ok after
    → (after.cancelled ≡ true) × (after.status ≢ started)
unfolding close
close-stops it after e =
    subst (λ a. (a.cancelled ≡ true) × (a.status ≢ started)) (if-ok it.cancel _ after e)
      (refl, after_close it.status)
