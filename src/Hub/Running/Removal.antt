-- ===== src/Hub/Running/Removal.antt =====
-- hub/hub_base.go: when an iterator leaves the table of running iterators.
use steampipe_postgres_fdw.Prelude.{
  if◌then◌else◌, keep, ◌==◌, nat_eq, string_eq, ==_iff, In, ok, ◌>>=◌, ℕ, ◌≡◌, refl, ap, ◌∙◌, ◌≢◌,
  inl, inr, Bool, true, false, not, ◌&&◌, List, [], ◌∷◌, ◌++◌,
}
use steampipe_postgres_fdw.Hub.Iterator.Defs.{Iterator}
use steampipe_postgres_fdw.Hub.Running.Abort.{close-cancel}
use steampipe_postgres_fdw.Hub.Running.Defs.{
  Ref, scan, base, in_memory, RunningHub, put, close_scan, record_and_close, end_scan, status_of,
  remove_iterator, removed, after_next, is_started, meets_end,
}

if-In : (x y : Ref) (b : Bool) (l : List Ref) → In x l → In x (if b then y ∷ l else l)
if-In x y true l i = inr i
if-In x y false l i = i

remove-base :
    (n : ℕ) (l : List Ref) (m : ℕ) → In (scan m) l → In (scan m) (remove_iterator (base n) l)
unfolding remove_iterator keep
remove-base n [] m i = i
remove-base n (scan k ∷ l) m (inl e) = inl e
remove-base n (scan k ∷ l) m (inr i) = inr (remove-base n l m i)
remove-base n (base k ∷ l) m (inl e) = cc
remove-base n (base k ∷ l) m (inr i) = if-In (scan m) (base k) _ _ (remove-base n l m i)
remove-base n (in_memory k ∷ l) m (inl e) = cc
remove-base n (in_memory k ∷ l) m (inr i) = inr (remove-base n l m i)

not-In-if :
    (x y : Ref) (b : Bool) (l : List Ref)
    → (b ≡ true → y ≢ x)
    → ¬ In x l
    → ¬ In x (if b then y ∷ l else l)
not-In-if x y true l f g (inl e) = f refl e
not-In-if x y true l f g (inr i) = g i
not-In-if x y false l f g i = g i

scan-number : {m n : ℕ} → scan m ≡ scan n → m ≡ n
scan-number e = cc

removed-absent : (n : ℕ) (l : List Ref) → ¬ In (scan n) (remove_iterator (scan n) l)
unfolding remove_iterator keep
removed-absent n [] i = elim i [ ]
removed-absent n (scan k ∷ l) i =
    not-In-if (scan n) (scan k) (not (k == n)) _ (λ t p. cc (t, (==_iff k n).1 (scan-number p)))
      (removed-absent n l) i
removed-absent n (base k ∷ l) (inl e) = cc
removed-absent n (base k ∷ l) (inr i) = removed-absent n l i
removed-absent n (in_memory k ∷ l) (inl e) = cc
removed-absent n (in_memory k ∷ l) (inr i) = removed-absent n l i

kept-if :
    (b : Bool) (x : Ref) (g f : RunningHub)
    → In x g.running
    → In x f.running
    → In x (if b then g else f).running
kept-if true x g f i j = i
kept-if false x g f i j = j

-- Next takes no scan out of the table, not even its own when it has met the end of the rows: the
-- key that it removes is that of the base inside the scan, and StartScan put the scan itself in.
pub next_keeps_running :
    (before after : Iterator) (n m : ℕ) (h : RunningHub)
    → In (scan m) h.running
    → In (scan m) (after_next before n after h).running
unfolding after_next removed
next_keeps_running before after n m h i =
    kept-if (is_started before.status && meets_end before.rows before.closed) (scan m) _ _
      (remove-base n h.running m i) i

abbrev with_scan : RunningHub → ℕ → Iterator → RunningHub
with_scan h n it = record h { scans = put h.scans n it }

end-cases :
    (b : Bool) (x y : RunningHub) (f : RunningHub → RunningHub)
    → ((if b then ok x else ok y) >>= λ g. ok (f g)) ≡ ok (f (if b then x else y))
end-cases true x y f = refl
end-cases false x y f = refl

-- EndScan of a scan that was started returns, and the scan is no longer in the table.
pub end_scan_removes :
    (n : ℕ) (h : RunningHub)
    → (h.scans n).cancel ≡ true
    → (g : RunningHub) × (end_scan (scan n) h ≡ ok g) × ¬ In (scan n) g.running
unfolding end_scan record_and_close close_scan removed
end_scan_removes n h c =
    let d = close-cancel (h.scans n) c in
    let h₁ = record h { recorded = h.recorded ++ n ∷ [] } in
    let closed : RunningHub = record h₁ { scans = put h.scans n d.0 } in
    let b = is_started (status_of (scan n) h) in
    (
      removed (scan n) (if b then closed else h),
      ap
            (λ x. (if b then (x >>= λ it. ok (with_scan h₁ n it)) else ok h) >>= λ g.
              ok (removed (scan n) g))
            d.1
          ∙ end-cases b closed h (removed (scan n)),
      removed-absent n _,
    )
