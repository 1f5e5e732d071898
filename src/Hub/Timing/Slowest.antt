-- ===== src/Hub/Timing/Slowest.antt =====
-- hub/query_timing_metadata.go: the list of a query holds its slowest scans, in order.
use mathlib.Core.List.{Permᴰ, append_assoc}
use mathlib.Core.List.Permᴰ
use steampipe_postgres_fdw.Prelude.{
  ◌+◌, ◌≤◌, ◌<◌, true, false, List, [], ◌∷◌, ◌++◌, ◌≡◌, refl, ◌∙◌, subst, arith, ltb, ltb→lt,
  length, length-take, length-append, take, All-append, Bool-cases, inl, inr,
}
use steampipe_postgres_fdw.Hub.Timing.Defs.{
  ScanMetadataRow, IsSorted, Environment, slower_than_last, add_row, scan_metadata_buffer_size,
}
use steampipe_postgres_fdw.Hub.Timing.Sorting.{
  drop, take-append-drop, All-take, All-perm, Above, IsSorted-take, Above-take-drop, above_last,
  last-Above, Above-cons, Above-append, length-perm, length-take_long,
}

-- `rows` is what is kept of `all`, and `dropped` the rest.
pub record KeepsSlowest (rows all : List ScanMetadataRow) : Type 0 where
  pub dropped : List ScanMetadataRow
  pub perm : Permᴰ (rows ++ dropped) all
  pub sorted : IsSorted rows
  pub slowest : Above rows dropped
  pub bounded : length rows ≤ scan_metadata_buffer_size
  pub full : length rows < scan_metadata_buffer_size → dropped ≡ []

Above-nil : (l : List ScanMetadataRow) → Above l []
Above-nil [] = tt
Above-nil (x ∷ l) = (tt, Above-nil l)

-- One more row, put behind what is kept, is one more row of all.
perm-more :
    (rows dropped all : List ScanMetadataRow) (row : ScanMetadataRow)
    → Permᴰ (rows ++ dropped) all
    → Permᴰ (rows ++ row ∷ dropped) (all ++ row ∷ [])
perm-more rows dropped all row p =
    Permᴰ.trans (Permᴰ.middle row rows dropped)
      (Permᴰ.trans (Permᴰ.cons refl p) (Permᴰ.append_comm (row ∷ []) all))

module _ (env : Environment) where
  open env use {sort_slice, sort_slice-perm, sort_slice-IsSorted}

  module _ (rows all : List ScanMetadataRow) (row : ScanMetadataRow)
      (k : KeepsSlowest rows all) where
    abbrev more : List ScanMetadataRow
    more = sort_slice (rows ++ row ∷ [])

    length-more : length more ≡ length rows + 1
    length-more = length-perm (sort_slice-perm (rows ++ row ∷ [])) ∙ length-append rows (row ∷ [])

    room : length rows < scan_metadata_buffer_size → KeepsSlowest more (all ++ row ∷ [])
    room h = record {
      dropped = [];
      perm = Permᴰ.trans (Permᴰ.append-nil more) (
          Permᴰ.trans (sort_slice-perm (rows ++ row ∷ []))
            (perm-more rows [] all row (subst (λ d. Permᴰ (rows ++ d) all) (k.full h) k.perm)));
      sorted = sort_slice-IsSorted (rows ++ row ∷ []);
      slowest = Above-nil more;
      bounded = omega (arith, length-more);
      full = λ _. refl;
    }

    too_fast :
        length rows ≡ scan_metadata_buffer_size
        → slower_than_last row rows ≡ false
        → KeepsSlowest rows (all ++ row ∷ [])
    too_fast h f = record {
      dropped = row ∷ k.dropped;
      perm = perm-more rows k.dropped all row k.perm;
      sorted = k.sorted;
      slowest = Above-cons row k.dropped rows (above_last row rows k.sorted f) k.slowest;
      bounded = k.bounded;
      full = λ lt. absurd (omega arith);
    }

    all-Above :
        length rows ≡ scan_metadata_buffer_size
        → slower_than_last row rows ≡ true
        → Above more k.dropped
    all-Above h t = All-perm _ (sort_slice-perm (rows ++ row ∷ [])) (
        All-append _ rows (row ∷ []) k.slowest
          (last-Above row k.dropped rows k.sorted t k.slowest (omega arith), tt))

    displaced_perm :
        Permᴰ
          (take scan_metadata_buffer_size more
            ++ (drop scan_metadata_buffer_size more ++ k.dropped))
          (all ++ row ∷ [])
    displaced_perm =
        rw (← append_assoc, take-append-drop scan_metadata_buffer_size more)
          (Permᴰ.trans (Permᴰ.append_right k.dropped (sort_slice-perm (rows ++ row ∷ [])))
            (rw append_assoc (perm-more rows k.dropped all row k.perm)))

    displaces :
        length rows ≡ scan_metadata_buffer_size
        → slower_than_last row rows ≡ true
        → KeepsSlowest (take scan_metadata_buffer_size more) (all ++ row ∷ [])
    displaces h t = record {
      dropped = drop scan_metadata_buffer_size more ++ k.dropped;
      perm = displaced_perm;
      sorted =
          IsSorted-take scan_metadata_buffer_size more (sort_slice-IsSorted (rows ++ row ∷ []));
      slowest =
          Above-append _ (drop scan_metadata_buffer_size more) k.dropped
            (Above-take-drop scan_metadata_buffer_size more
              (sort_slice-IsSorted (rows ++ row ∷ [])))
            (All-take _ scan_metadata_buffer_size more (all-Above h t));
      bounded = length-take scan_metadata_buffer_size more;
      full = λ lt.
          absurd (omega (arith, length-more, length-take_long scan_metadata_buffer_size more));
    }

    pub add_row-KeepsSlowest : KeepsSlowest (add_row env rows row) (all ++ row ∷ [])
    unfolding add_row
    add_row-KeepsSlowest = elim (Bool-cases (ltb (length rows) scan_metadata_buffer_size)) [
      | inl y ↦ rw y (room (ltb→lt _ _ y))
      | inr n ↦ rw n (elim (Bool-cases (slower_than_last row rows)) [
        | inl t ↦ rw t (displaces (ground (arith, n, k.bounded)) t)
        | inr f ↦ rw f (too_fast (ground (arith, n, k.bounded)) f)
      ])
    ]
