-- ===== src/Hub/Iterator/InMemory.antt =====
-- hub/in_memory_iterator.go: the iterator over the rows of a command table.
use steampipe_postgres_fdw.Prelude.{
  length, replicate, length-append, nat_eq, string_eq, ℕ, zero, suc, ◌≡◌, refl, sym, ap, ◌∙◌, Bool,
  true, false, Option, none, some, List, [], ◌∷◌, ◌++◌, map, arith,
}
use mathlib.Core.List.{append-nil, append_assoc}
use steampipe_postgres_fdw.Hub.Iterator.Defs.{
  QueryStatus, ready, started, error, complete, ResultRow,
}

pub record InMemoryIterator : Type 0 where
  pub rows : List ResultRow
  pub index : ℕ
  pub status : QueryStatus

unfoldable pub new_in_memory_iterator : List ResultRow → InMemoryIterator
new_in_memory_iterator rows = record { rows = rows; index = 0; status = started }

-- i.rows[idx], or none from the end of the rows on.
unfoldable pub row_at : List ResultRow → ℕ → Option ResultRow
row_at [] i = none
row_at (r ∷ rows) zero = some r
row_at (r ∷ rows) (suc i) = row_at rows i

unfoldable pub next_from : Option ResultRow → InMemoryIterator → Option ResultRow × InMemoryIterator
next_from (some r) it = (some r, record it { index = suc it.index })
next_from none it = (none, record it { status = complete })

-- Next: `if idx := i.index; idx < len(i.rows)`.
unfoldable pub in_memory_next : InMemoryIterator → Option ResultRow × InMemoryIterator
unfolding next_from row_at
in_memory_next it = next_from (row_at it.rows it.index) it

unfoldable pub in_memory_close : InMemoryIterator → InMemoryIterator
in_memory_close it = record { rows = []; index = 0; status = ready }

unfoldable pub in_memory_can_iterate : InMemoryIterator → Bool
in_memory_can_iterate it = elim it.status [
  | error ↦ false
  | complete ↦ false
  | ready ↦ true
  | started ↦ true
]

-- What `n` calls of Next return, and the iterator after them.
unfoldable pub calls : ℕ → InMemoryIterator → List (Option ResultRow) × InMemoryIterator
unfolding in_memory_next
calls zero it = ([], it)
calls (suc n) it =
    let one = in_memory_next it in let rest = calls n one.1 in (one.0 ∷ rest.0, rest.1)

row_at-append :
    (done : List ResultRow) (r : ResultRow) (rest : List ResultRow)
    → row_at (done ++ r ∷ rest) (length done) ≡ some r
unfolding row_at
row_at-append [] r rest = refl
row_at-append (d ∷ done) r rest = row_at-append done r rest

row_at-length : (rows : List ResultRow) → row_at rows (length rows) ≡ none
unfolding row_at
row_at-length [] = refl
row_at-length (r ∷ rows) = row_at-length rows

-- The iterator that stands behind `done`.
abbrev at : List ResultRow → ℕ → QueryStatus → InMemoryIterator
at rows i q = record { rows = rows; index = i; status = q }

calls_after_end :
    (k : ℕ) (rows : List ResultRow) (i : ℕ) (q : QueryStatus)
    → row_at rows i ≡ none
    → calls (suc k) (at rows i q) ≡ (replicate (suc k) none, at rows i complete)
unfolding calls in_memory_next next_from
calls_after_end zero rows i q e = rw e refl
calls_after_end (suc k) rows i q e =
    rw e (ap (λ p. (none ∷ p.0, p.1)) (calls_after_end k rows i complete e))

calls_from :
    (all done rest : List ResultRow) (i : ℕ)
    → done ++ rest ≡ all
    → i ≡ length done
    → calls (length rest) (at all i started) ≡ (map some rest, at all (length all) started)
unfolding calls in_memory_next next_from
calls_from all done [] i e f =
    ap (λ n. ([], at all n started)) (f ∙ ap length (sym (append-nil done) ∙ e))
calls_from all done (r ∷ rest) i e f =
    let found : row_at all i ≡ some r =
      ap (row_at all) f ∙ ap (λ l. row_at l (length done)) (sym e) ∙ row_at-append done r rest in
    let more =
      calls_from all (done ++ r ∷ []) rest (suc i) (append_assoc done (r ∷ []) rest ∙ e)
        (omega (arith, f, length-append done (r ∷ []))) in
    rw found (ap (λ p. (some r ∷ p.0, p.1)) more)

-- Next returns the rows of the table in their order, one a call, and from then on no row, in the
-- state complete, however often it is called.
pub in_memory_drain :
    (k : ℕ) (rows : List ResultRow)
    → (drained : InMemoryIterator) × (calls (length rows) (new_in_memory_iterator rows)
        ≡ (map some rows, drained))
      × (calls (suc k) drained ≡ (replicate (suc k) none, record drained { status = complete }))
unfolding new_in_memory_iterator
in_memory_drain k rows = (
  at rows (length rows) started,
  calls_from rows [] rows 0 refl refl,
  calls_after_end k rows (length rows) started (row_at-length rows),
)

-- A closed iterator has no rows left: every call of Next returns none, although CanIterate holds.
pub closed_in_memory_empty :
    (k : ℕ) (it : InMemoryIterator)
    → (in_memory_can_iterate (in_memory_close it) ≡ true)
      × ((calls k (in_memory_close it)).0 ≡ replicate k none)
unfolding in_memory_close in_memory_can_iterate calls row_at
closed_in_memory_empty zero it = (refl, refl)
closed_in_memory_empty (suc k) it = (refl, ap (λ p. p.0) (calls_after_end k [] 0 ready refl))
