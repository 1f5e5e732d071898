-- ===== src/Hub/Running/Tests.antt =====
-- A hub with one scan that runs and one that was not started.
use steampipe_postgres_fdw.Prelude.{
  if◌then◌else◌, keep, ◌==◌, nat_eq, string_eq, All, In, ok, panic, ℕ, String, ◌≡◌, refl, inl, inr,
  true, false, Option, none, some, [], ◌∷◌,
}
use steampipe_postgres_fdw.Hub.Iterator.Defs.{Iterator, start, ready, started, complete}
use steampipe_postgres_fdw.Hub.Iterator.InMemory.{InMemoryIterator}
use steampipe_postgres_fdw.Hub.Running.Defs.{
  Ref, scan, RunningHub, put, start_scan, started_as, add_iterator, remove_iterator, abort,
  abort_loop, after_next,
}
use steampipe_postgres_fdw.Hub.Running.Abort.{IsClosable, IsClosed, abort_closes}
use steampipe_postgres_fdw.Hub.Running.Removal.{next_keeps_running}
use steampipe_postgres_fdw.Hub.Running.Failure.{failed_start_breaks_abort, starts, at_once}

abbrev live : Iterator
live = record {
  status = started;
  err = none;
  rows = [];
  closed = true;
  scan_metadata = [];
  cancel = true;
  cancelled = false;
}

abbrev fresh : Iterator
fresh = record {
  status = ready;
  err = none;
  rows = [];
  closed = false;
  scan_metadata = [];
  cancel = false;
  cancelled = false;
}

abbrev objects : ℕ → Iterator
objects n = if n == 0 then live else fresh

abbrev table : ℕ → InMemoryIterator
table n = record { rows = []; index = 0; status = started }

abbrev one_running : RunningHub
one_running = record { scans = objects; tables = table; running = scan 0 ∷ []; recorded = [] }

abort_closes_example :
    (g : RunningHub) × (abort one_running ≡ ok g)
    × (g.running ≡ [])
    × All (IsClosed g) (scan 0 ∷ [])
unfolding IsClosable
abort_closes_example = abort_closes one_running (refl, tt)

-- The hub after scan 1 has failed to start.
abbrev failed_hub : RunningHub
failed_hub = record {
  scans = put objects 1 fresh;
  tables = table;
  running = scan 1 ∷ scan 0 ∷ [];
  recorded = [];
}

failed_first : start_scan (scan 1) (some "unavailable") one_running ≡ ok (none, failed_hub)
unfolding start_scan start started_as add_iterator remove_iterator keep
failed_first = refl

-- Scan 2 is started meanwhile.
abbrev two_more : RunningHub
two_more = record failed_hub {
  scans = put failed_hub.scans 2 (record fresh { status = started; cancel = true });
  running = scan 2 ∷ scan 1 ∷ scan 0 ∷ [];
}

started_second : start_scan (scan 2) none failed_hub ≡ ok (none, two_more)
unfolding start_scan start started_as add_iterator remove_iterator keep put
started_second = refl

failed_start_breaks_abort_example :
    (◌≡◌ {A = Option String} none none)
    × (abort two_more ≡ panic)
    × (abort_loop (scan 0 ∷ scan 2 ∷ scan 1 ∷ []) two_more ≡ panic)
failed_start_breaks_abort_example =
    failed_start_breaks_abort 1 "unavailable" none one_running failed_hub two_more
      (scan 0 ∷ scan 2 ∷ scan 1 ∷ []) refl failed_first
      (starts (scan 2) none none at_once (λ e. cc) started_second) reordered
  where
    reordered : (r : Ref) → In r two_more.running → In r (scan 0 ∷ scan 2 ∷ scan 1 ∷ [])
    reordered r (inl e) = inr (inl e)
    reordered r (inr (inl e)) = inr (inr (inl e))
    reordered r (inr (inr (inl e))) = inl e
    reordered r (inr (inr (inr e))) = elim e [ ]

next_keeps_running_example :
    In
      (scan 0)
      (after_next live 0 (record live { status = complete; cancelled = true }) one_running).running
next_keeps_running_example =
    next_keeps_running live (record live { status = complete; cancelled = true }) 0 0 one_running
      (inl refl)
