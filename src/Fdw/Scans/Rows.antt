-- ===== src/Fdw/Scans/Rows.antt =====
-- The tuples that goFdwIterateForeignScan makes of the rows of Next.
use steampipe_postgres_fdw.Prelude.{
  length, nat_eq, string_eq, All, Result, value, fail, value_injective, ℕ, zero, suc, ◌+◌, ◌<◌,
  String, ◌≡◌, refl, sym, ap, ◌∙◌, subst, ◌≢◌, ◌⊎◌, inl, inr, Option, none, some, List, [], ◌∷◌,
  map, arith,
}
use steampipe_postgres_fdw.Prelude.GoMap.{lookup}
use steampipe_postgres_fdw.Hub.Iterator.Defs.{
  Value, nil_value, empty_bytes, bool_value, int_value, string_value, json_document, ResultRow, Row,
  Iterator, started, row_read, no_more_rows, failed, Call, waits, returns, panics, next,
  populate_row, receive_row, deliver, return_populated,
}
use steampipe_postgres_fdw.Fdw.Scans.Defs.{
  tuple, attribute_datum, put_datum, row_data, filled, slot_of_row, slot_of_outcome, slot_of_call,
  started_if_ready, iterate_foreign_scan, collected, tuples_of_scan,
}

module _ (val_to_datum : Value → ℕ → Result String ℕ) where
  -- What a datum of a tuple is, for what the row has under the name of the attribute: NULL for
  -- nothing and for a nil, and the conversion of another value.
  abbrev pub IsDatumOf : Option Value → ℕ → Option ℕ → Type 0
  IsDatumOf o i d =
      (((o ≡ none) ⊎ (o ≡ some nil_value)) × (d ≡ none))
      ⊎ ((v : Value) × (n : ℕ) × (o ≡ some v)
          × (v ≢ nil_value)
          × (val_to_datum v i ≡ value n)
          × (d ≡ some n))

  -- The datums of a tuple are those of the row, attribute by attribute; the first attribute has the
  -- index `i`.
  abbrev pub IsTupleOf : ResultRow → List String → ℕ → List (Option ℕ) → Type 0
  IsTupleOf row [] i [] = Unit
  IsTupleOf row [] i (d ∷ ds) = ⊥
  IsTupleOf row (name ∷ names) i [] = ⊥
  IsTupleOf row (name ∷ names) i (d ∷ ds) =
      IsDatumOf (lookup name row) i d × IsTupleOf row names (i + 1) ds

  converted_parts :
      (r : Result String ℕ) (d : Option ℕ)
      → ◌≡◌ {A = Result String (Option ℕ)}
          (elim r [ value n ↦ value (some n) | fail e ↦ fail e ])
          (value d)
      → (n : ℕ) × (r ≡ value n) × (d ≡ some n)
  converted_parts (value n) d h = (n, refl, sym (value_injective h))
  converted_parts (fail e) d h = cc

  converted :
      (v : Value) (i : ℕ) (d : Option ℕ)
      → v ≢ nil_value
      → ◌≡◌ {A = Result String (Option ℕ)}
          (elim (val_to_datum v i) [ value n ↦ value (some n) | fail e ↦ fail e ])
          (value d)
      → IsDatumOf (some v) i d
  converted v i d ne h =
      let k = converted_parts (val_to_datum v i) d h in inr (v, k.0, refl, ne, k.1, k.2)

  attribute_datum-IsDatumOf :
      (o : Option Value) (i : ℕ) (d : Option ℕ)
      → attribute_datum val_to_datum o i ≡ value d
      → IsDatumOf o i d
  unfolding attribute_datum
  attribute_datum-IsDatumOf none i d h = inl (inl refl, sym (value_injective h))
  attribute_datum-IsDatumOf (some nil_value) i d h = inl (inr refl, sym (value_injective h))
  attribute_datum-IsDatumOf (some empty_bytes) i d h = converted empty_bytes i d (λ e. cc) h
  attribute_datum-IsDatumOf (some (bool_value b)) i d h = converted (bool_value b) i d (λ e. cc) h
  attribute_datum-IsDatumOf (some (int_value n)) i d h = converted (int_value n) i d (λ e. cc) h
  attribute_datum-IsDatumOf (some (string_value s)) i d h =
      converted (string_value s) i d (λ e. cc) h
  attribute_datum-IsDatumOf (some (json_document s)) i d h =
      converted (json_document s) i d (λ e. cc) h

  put_datum_parts :
      (a : Result String (Option ℕ)) (rest : Result String (List (Option ℕ))) (ds : List (Option ℕ))
      → put_datum val_to_datum a rest ≡ value ds
      → (d : Option ℕ) × (more : List (Option ℕ)) × (a ≡ value d)
        × (rest ≡ value more)
        × (ds ≡ d ∷ more)
  put_datum_parts (fail e) rest ds h = cc
  put_datum_parts (value d) (fail e) ds h = cc
  put_datum_parts (value d) (value more) ds h = (d, more, refl, refl, sym (value_injective h))

  row_data-IsTupleOf :
      (row : ResultRow) (names : List String) (i : ℕ) (ds : List (Option ℕ))
      → row_data val_to_datum row names i ≡ value ds
      → IsTupleOf row names i ds
  unfolding row_data
  row_data-IsTupleOf row [] i ds h = subst (IsTupleOf row [] i) (value_injective h) tt
  row_data-IsTupleOf row (name ∷ names) i ds h =
      let k =
        put_datum_parts (attribute_datum val_to_datum (lookup name row) i)
          (row_data val_to_datum row names (i + 1)) ds h in
      subst (IsTupleOf row (name ∷ names) i) (sym k.4) (
        attribute_datum-IsDatumOf (lookup name row) i k.0 k.2,
        row_data-IsTupleOf row names (i + 1) k.1 k.3,
      )

  filled_parts :
      (r : Result String (List (Option ℕ))) (ds : List (Option ℕ))
      → filled val_to_datum r ≡ tuple ds
      → r ≡ value ds
  unfolding filled
  filled_parts (fail e) ds h = cc
  filled_parts (value es) ds h = ground arith

  row_parts :
      (names : List String) (row : ResultRow) (ds : List (Option ℕ))
      → slot_of_row val_to_datum names row ≡ tuple ds
      → (row ≢ []) × IsTupleOf row names 0 ds
  unfolding slot_of_row
  row_parts names [] ds h = cc
  row_parts [] (c ∷ row) ds h = cc
  row_parts (name ∷ names) (c ∷ row) ds h =
      ((λ e. cc), row_data-IsTupleOf (c ∷ row) (name ∷ names) 0 ds (filled_parts _ ds h))

  call_parts :
      (names : List String) (it : Iterator) (call : Call) (ds : List (Option ℕ))
      → (slot_of_call val_to_datum names it call).0 ≡ tuple ds
      → (row : ResultRow) × (after : Iterator) × (call ≡ returns (row_read row) after)
        × (row ≢ [])
        × IsTupleOf row names 0 ds
  unfolding slot_of_call slot_of_outcome
  call_parts names it waits ds h = cc
  call_parts names it panics ds h = cc
  call_parts names it (returns no_more_rows after) ds h = cc
  call_parts names it (returns (failed none) after) ds h = cc
  call_parts names it (returns (failed (some e)) after) ds h = cc
  call_parts names it (returns (row_read row) after) ds h =
      let k = row_parts names row ds h in (row, after, refl, k.0, k.1)

  module _ (unmarshal : String → Result String Value) (timestamp_string : String → String) where
    -- Each tuple that goFdwIterateForeignScan returns comes from a row of Next that has a column,
    -- and holds, for each attribute of the table in order, the datum of the value that the row has
    -- under the attribute's name, or NULL where the row has none or a nil.
    pub tuple_holds_row :
        (attrs : List String) (e : Option String) (it : Iterator) (ds : List (Option ℕ))
        → (iterate_foreign_scan val_to_datum unmarshal timestamp_string attrs e it).0 ≡ tuple ds
        → (row : ResultRow) × (after : Iterator) × (next unmarshal timestamp_string
              (started_if_ready val_to_datum e it)
            ≡ returns (row_read row) after)
          × (row ≢ [])
          × IsTupleOf row attrs 0 ds
    unfolding iterate_foreign_scan
    tuple_holds_row attrs e it ds h =
        call_parts attrs (started_if_ready val_to_datum e it)
          (next unmarshal timestamp_string (started_if_ready val_to_datum e it)) ds h

    -- A call for a row that can be read.
    iterate_row :
        (attrs : List String) (e : Option String) (it : Iterator) (row : Row)
        (rows : List (Option Row)) (res : ResultRow)
        → populate_row unmarshal timestamp_string row ≡ value res
        → iterate_foreign_scan val_to_datum unmarshal timestamp_string attrs e
            (record it { status = started; rows = some row ∷ rows })
          ≡ (slot_of_row val_to_datum attrs res, record it { status = started; rows = rows })
    unfolding iterate_foreign_scan next receive_row deliver
    iterate_row attrs e it row rows res p =
        ap
          (λ r.
            slot_of_call val_to_datum attrs (record it { status = started; rows = some row ∷ rows })
              (return_populated unmarshal timestamp_string r
                (record it { status = started; rows = rows })))
          p

    -- The row is read and becomes the tuple.
    abbrev pub Becomes : List String → Row × List (Option ℕ) → Type 0
    Becomes attrs (row, ds) =
        (res : ResultRow) × (populate_row unmarshal timestamp_string row ≡ value res)
        × (slot_of_row val_to_datum attrs res ≡ tuple ds)

    abbrev pub sent : List (Row × List (Option ℕ)) → List (Option Row) → List (Option Row)
    sent [] rest = some [] ∷ rest
    sent ((row, ds) ∷ front) rest = some row ∷ sent front rest

    -- The rows of a started scan are some that become tuples, a row without columns, and others.
    -- However often Postgres calls, once for each of the tuples and once more at least, it gets these
    -- tuples and no more: the row without columns ends the scan for it, while the iterator is still
    -- started and has the other rows.
    pub empty_row_ends_scan :
        (attrs : List String) (e : Option String) (it : Iterator)
        (front : List (Row × List (Option ℕ))) (rest : List (Option Row)) (calls : ℕ)
        → All (Becomes attrs) front
        → length front < calls
        → tuples_of_scan val_to_datum unmarshal timestamp_string calls attrs e
            (record it { status = started; rows = sent front rest })
          ≡ (map (λ p. p.1) front, record it { status = started; rows = rest })
    unfolding tuples_of_scan slot_of_row populate_row
    empty_row_ends_scan attrs e it front rest zero h l = absurd (omega arith)
    empty_row_ends_scan attrs e it [] rest (suc calls) h l =
        ap
          (λ g.
            collected val_to_datum unmarshal timestamp_string g
              (tuples_of_scan val_to_datum unmarshal timestamp_string calls attrs e g.1))
          (iterate_row attrs e it [] rest [] refl)
    empty_row_ends_scan attrs e it ((row, ds) ∷ front) rest (suc calls) (b, h) l =
        ap
          (λ g.
            collected val_to_datum unmarshal timestamp_string g
              (tuples_of_scan val_to_datum unmarshal timestamp_string calls attrs e g.1))
          (iterate_row attrs e it row (sent front rest) b.0 b.1
            ∙ ap (λ s. (s, record it { status = started; rows = sent front rest })) b.2)
        ∙ ap (λ r. (ds ∷ r.0, r.1))
            (empty_row_ends_scan attrs e it front rest calls h (omega (arith, l)))
