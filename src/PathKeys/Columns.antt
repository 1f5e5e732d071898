-- ===== src/PathKeys/Columns.antt =====
-- types/pathkeys.go: `removeKeyColumnsFromAllColumns` on every input.
use mathlib.Core.List.{append_assoc, append-nil}
use steampipe_postgres_fdw.Prelude.{
  ℕ, zero, suc, ◌+◌, ◌-◌, ◌≤◌, ◌<◌, String, not, List, [], ◌∷◌, ◌++◌, if◌then◌else◌, ltb, length,
  keep, ok, panic, string_eq, replicate, ◌∙◌, ◌≡◌, arith, Bool-cases, ltb→lt, inl, inr,
  length-append, set-append, ap,
}
use steampipe_postgres_fdw.Proto.{KeyColumn}
use steampipe_postgres_fdw.PathKeys.Defs.{
  key_column_array_contains_column, write, remove_loop, remove_key_columns_from_all_columns,
}

-- The columns that are no key column, in order.
abbrev pub other_columns : List KeyColumn → List String → List String
other_columns keys all = keep (λ c. not (key_column_array_contains_column keys c)) all

write-next :
    (done : List String) (room : ℕ) (c : String)
    → write (done ++ replicate (suc room) "") (length done) c
      ≡ ok ((done ++ c ∷ []) ++ replicate room "")
unfolding write
write-next done room c =
    ground (
      arith,
      set-append done (replicate room "") "" c,
      length-append done (replicate (suc room) ""),
    )

write_full : (slots : List String) (c : String) → write slots (length slots) c ≡ panic
unfolding write
write_full slots c = ground arith

next_index : (done : List String) (c : String) → length done + 1 ≡ length (done ++ c ∷ [])
next_index done c = omega (arith, length-append {0} done (c ∷ []))

suc-sub-suc : (a b : ℕ) → suc a - suc b ≡ a - b
suc-sub-suc a b = omega arith

module _ (keys : List KeyColumn) where
  remove_loop_fits :
      (cs done : List String) (room : ℕ)
      → length (other_columns keys cs) ≤ room
      → remove_loop keys cs (done ++ replicate room "") (length done)
        ≡ ok (
            done ++ (other_columns keys cs ++ replicate (room - length (other_columns keys cs)) ""))
  unfolding remove_loop keep
  remove_loop_fits [] done room h = ground arith
  remove_loop_fits (c ∷ cs) done zero h =
      elim (Bool-cases (key_column_array_contains_column keys c)) [
        | inl y ↦ rw y (remove_loop_fits cs done zero (ground (arith, y)))
        | inr n ↦ absurd (ground (arith, n))
      ]
  remove_loop_fits (c ∷ cs) done (suc room) h =
      elim (Bool-cases (key_column_array_contains_column keys c)) [
        | inl y ↦ rw y (remove_loop_fits cs done (suc room) (ground (arith, y)))
        | inr n ↦
            rw (n, write-next done room c, next_index done c, suc-sub-suc)
              (remove_loop_fits cs (done ++ c ∷ []) room (ground (arith, n))
                ∙ ap ok (append_assoc done (c ∷ []) _))
      ]

  remove_loop_full :
      (cs done : List String) (room : ℕ)
      → room < length (other_columns keys cs)
      → remove_loop keys cs (done ++ replicate room "") (length done) ≡ panic
  unfolding remove_loop keep
  remove_loop_full [] done room h = absurd (omega arith)
  remove_loop_full (c ∷ cs) done zero h =
      elim (Bool-cases (key_column_array_contains_column keys c)) [
        | inl y ↦ rw y (remove_loop_full cs done zero (ground (arith, y)))
        | inr n ↦ ground (arith, n, append-nil done, write_full done c)
      ]
  remove_loop_full (c ∷ cs) done (suc room) h =
      elim (Bool-cases (key_column_array_contains_column keys c)) [
        | inl y ↦ rw y (remove_loop_full cs done (suc room) (ground (arith, y)))
        | inr n ↦
            rw (n, write-next done room c, next_index done c)
              (remove_loop_full cs (done ++ c ∷ []) room (ground (arith, n)))
      ]

-- On every input: `removeKeyColumnsFromAllColumns` panics exactly when the key columns and the
-- columns that are no key column are together more than all columns; otherwise it returns the
-- latter in order, followed by an empty name for each slot that is left.
pub remove_key_columns_lem :
    (keys : List KeyColumn) (all : List String)
    → remove_key_columns_from_all_columns keys all ≡ (
        if ltb (length all) (length keys + length (other_columns keys all))
        then panic
        else ok (
            other_columns keys all
            ++ replicate (length all - length keys - length (other_columns keys all)) ""))
unfolding remove_key_columns_from_all_columns
remove_key_columns_lem keys all =
    let room = length all - length keys in
    elim (Bool-cases (ltb room (length (other_columns keys all)))) [
      | inl full ↦ ground (arith, remove_loop_full keys all [] room (ltb→lt _ _ full))
      | inr fits ↦ ground (arith, remove_loop_fits keys all [] room (ground (arith, fits)))
    ]
