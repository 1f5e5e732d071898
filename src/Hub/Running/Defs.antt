-- ===== src/Hub/Running/Defs.antt =====
-- StartScan, EndScan, Abort, addIterator and RemoveIterator of hub/hub_base.go. The table is keyed
-- by interface values: a pointer with its type. A scan iterator and the base that it embeds are
-- two keys, though they share their state.
use steampipe_postgres_fdw.Prelude.{
  if◌then◌else◌, keep, ◌==◌, nat_eq, string_eq, Go, ok, panic, ◌>>=◌, Result, value, fail, ℕ,
  String, Bool, true, false, not, ◌&&◌, Option, none, some, List, [], ◌∷◌, ◌++◌,
}
use steampipe_postgres_fdw.Hub.Iterator.Defs.{Iterator, QueryStatus, Row, start, close, can_iterate}
use steampipe_postgres_fdw.Hub.Iterator.InMemory.{InMemoryIterator, in_memory_close}

pub data Ref : Type 0 where
  -- *scanIterator or *scanIteratorLocal
  scan : ℕ → Ref
  -- the *scanIteratorBase inside it
  base : ℕ → Ref
  in_memory : ℕ → Ref

abbrev pub ref_beq : Ref → Ref → Bool
ref_beq (scan m) (scan n) = m == n
ref_beq (base m) (base n) = m == n
ref_beq (in_memory m) (in_memory n) = m == n
ref_beq (scan m) (base n) = false
ref_beq (scan m) (in_memory n) = false
ref_beq (base m) (scan n) = false
ref_beq (base m) (in_memory n) = false
ref_beq (in_memory m) (scan n) = false
ref_beq (in_memory m) (base n) = false

-- The objects, the table, and the scans that AddScanMetadata was called for.
pub record RunningHub : Type 0 where
  pub scans : ℕ → Iterator
  pub tables : ℕ → InMemoryIterator
  pub running : List Ref
  pub recorded : List ℕ

-- One object changes.
unfoldable pub put {ℓ} : {A : Type ℓ} → (ℕ → A) → ℕ → A → ℕ → A
put f n a m = if m == n then a else f m

-- delete(h.runningIterators, iterator)
unfoldable pub remove_iterator : Ref → List Ref → List Ref
remove_iterator r l = keep (λ x. not (ref_beq x r)) l

-- h.runningIterators[iterator] = struct{}{}
unfoldable pub add_iterator : Ref → List Ref → List Ref
unfolding remove_iterator
add_iterator r l = r ∷ remove_iterator r l

unfoldable pub started_as : Result String Iterator → Iterator → Iterator
started_as (value after) it = after
started_as (fail e) it = it

-- StartScan, with the error of `execute`, if there is one. The error of Start is dropped.
unfoldable pub start_scan : Ref → Option String → RunningHub → Go (Option String × RunningHub)
unfolding start started_as add_iterator
start_scan (scan n) e h = ok (
  none,
  record h {
    scans = put h.scans n (started_as (start e (h.scans n)) (h.scans n));
    running = add_iterator (scan n) h.running;
  },
)
-- i.(pluginExecutor): the base is a pluginIterator and no executor.
start_scan (base n) e h = panic
-- not a pluginIterator
start_scan (in_memory n) e h = ok (none, h)

unfoldable pub is_started : QueryStatus → Bool
unfolding can_iterate
is_started q = can_iterate q

unfoldable pub close_scan : ℕ → RunningHub → Go RunningHub
unfolding put close
close_scan n h = close (h.scans n) >>= λ it. ok (record h { scans = put h.scans n it })

-- AddScanMetadata and Close of one iterator. GetPluginName of the base panics; AddScanMetadata
-- does nothing for an in-memory iterator.
unfoldable pub record_and_close : Ref → RunningHub → Go RunningHub
unfolding close_scan put
record_and_close (scan n) h = close_scan n (record h { recorded = h.recorded ++ n ∷ [] })
record_and_close (base n) h = panic
record_and_close (in_memory n) h =
    ok (record h { tables = put h.tables n (in_memory_close (h.tables n)) })

unfoldable pub status_of : Ref → RunningHub → QueryStatus
status_of (scan n) h = (h.scans n).status
status_of (base n) h = (h.scans n).status
status_of (in_memory n) h = (h.tables n).status

unfoldable pub removed : Ref → RunningHub → RunningHub
unfolding remove_iterator
removed r h = record h { running = remove_iterator r h.running }

-- EndScan
unfoldable pub end_scan : Ref → RunningHub → Go RunningHub
unfolding record_and_close status_of removed is_started
end_scan r h =
    let closed = record_and_close r h in
    (if is_started (status_of r h) then closed else ok h) >>= λ g. ok (removed r g)

unfoldable pub abort_loop : List Ref → RunningHub → Go RunningHub
unfolding record_and_close
abort_loop [] h = ok h
abort_loop (r ∷ l) h = record_and_close r h >>= λ g. abort_loop l g

-- clear running iterators
unfoldable pub clear_running : RunningHub → RunningHub
clear_running g = record g { running = [] }

-- Abort
unfoldable pub abort : RunningHub → Go RunningHub
unfolding abort_loop clear_running
abort h = abort_loop h.running h >>= λ g. ok (clear_running g)

-- Whether Next meets the end of its rows: a nil row, or the closed and empty channel.
unfoldable pub meets_end : List (Option Row) → Bool → Bool
meets_end [] closed = closed
meets_end (none ∷ rows) closed = true
meets_end (some r ∷ rows) closed = false

-- What Next of a scan does to the hub: i.hub.RemoveIterator(i) is called by the base.
unfoldable pub after_next : Iterator → ℕ → Iterator → RunningHub → RunningHub
unfolding meets_end removed put is_started
after_next before n after h =
    let g = record h { scans = put h.scans n after } in
    if is_started before.status && meets_end before.rows before.closed
    then removed (base n) g
    else g
