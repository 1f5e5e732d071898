-- ===== src/Hub/Running/Failure.antt =====
-- hub/hub_base.go: what a scan that failed to start does to the table of running iterators.
use steampipe_postgres_fdw.Prelude.{
  if-P, if◌then◌else◌, Bool-cases, keep, ◌==◌, nat_eq, string_eq, ==_iff, In, Go, ok, panic, ◌>>=◌,
  ok_injective, ℕ, String, ◌≡◌, refl, sym, ap, ◌∙◌, subst, ◌≢◌, inl, inr, Bool, true, false, not,
  ◌&&◌, Option, none, some, List, [], ◌∷◌, ◌++◌,
}
use steampipe_postgres_fdw.Hub.Iterator.Defs.{Iterator, close, start}
use steampipe_postgres_fdw.Hub.Running.Abort.{put_self}
use steampipe_postgres_fdw.Hub.Running.Defs.{
  Ref, scan, base, in_memory, RunningHub, put, close_scan, record_and_close, abort_loop, abort,
  clear_running, start_scan, started_as, add_iterator, ref_beq, remove_iterator, end_scan,
  after_next, removed, is_started, status_of, meets_end,
}

-- Close of an iterator without cancellation function panics, and another Close keeps it so.
close-panics :
    (b : Bool) (it : Iterator)
    → b ≡ false
    → ◌≡◌ {A = Go Iterator} (if b then ok it else panic) panic
close-panics b it c = rw c refl

-- One round of the loop of Abort panics, or leaves the scan `n` without cancellation function.
data RoundCase (n : ℕ) : Go RunningHub → Type 0 where
  stuck : RoundCase n panic
  goes_on : (g : RunningHub) → (g.scans n).cancel ≡ false → RoundCase n (ok g)

after-close :
    (n m : ℕ) (b : Bool) (it : Iterator) (h : RunningHub)
    → (m ≡ n → b ≡ false)
    → (h.scans n).cancel ≡ false
    → RoundCase n ((if b then ok it else panic) >>= λ i. ok (record h { scans = put h.scans m i }))
unfolding put
after-close n m false it h f e = stuck
after-close n m true it h f e = elim (Bool-cases (n == m)) [
  | inl y ↦ absurd (cc (f (sym ((==_iff n m).0 y))))
  | inr z ↦ goes_on _ (rw z e)
]

record_and_close-RoundCase :
    (r : Ref) (n : ℕ) (h : RunningHub)
    → (h.scans n).cancel ≡ false
    → RoundCase n (record_and_close r h)
unfolding record_and_close close_scan close
record_and_close-RoundCase (scan m) n h e =
    after-close n m (h.scans m).cancel _ (record h { recorded = h.recorded ++ m ∷ [] })
      (λ p. subst (λ k. (h.scans k).cancel ≡ false) (sym p) e) e
record_and_close-RoundCase (base m) n h e = stuck
record_and_close-RoundCase (in_memory m) n h e = goes_on _ e

record_and_close-stuck :
    (r : Ref) (n : ℕ) (h : RunningHub)
    → r ≡ scan n
    → (h.scans n).cancel ≡ false
    → record_and_close r h ≡ panic
unfolding record_and_close close_scan close
record_and_close-stuck r n h p e =
    subst (λ x. record_and_close x h ≡ panic) (sym p)
      (ap
        (λ x. x >>= λ i. ok (record h { recorded = h.recorded ++ n ∷ []; scans = put h.scans n i }))
        (close-panics (h.scans n).cancel _ e))

go-on :
    (n : ℕ) (l : List Ref) (x : Go RunningHub)
    → RoundCase n x
    → ((g : RunningHub) → (g.scans n).cancel ≡ false → abort_loop l g ≡ panic)
    → (x >>= λ g. abort_loop l g) ≡ panic
go-on n l _ stuck f = refl
go-on n l _ (goes_on g e) f = f g e

abort_loop-panics :
    (l : List Ref) (n : ℕ) (h : RunningHub)
    → In (scan n) l
    → (h.scans n).cancel ≡ false
    → abort_loop l h ≡ panic
unfolding abort_loop
abort_loop-panics [] n h m e = elim m [ ]
abort_loop-panics (r ∷ l) n h (inl p) e =
    ap (λ x. x >>= λ g. abort_loop l g) (record_and_close-stuck r n h p e)
abort_loop-panics (r ∷ l) n h (inr m) e =
    go-on n l _ (record_and_close-RoundCase r n h e) (λ g f. abort_loop-panics l n g m f)

-- The scan `n` is in the table, without cancellation function.
abbrev pub Stuck : ℕ → RunningHub → Type 0
Stuck n h = In (scan n) h.running × ((h.scans n).cancel ≡ false)

keep-In : (x y : Ref) (l : List Ref) → ref_beq x y ≡ false → In x l → In x (remove_iterator y l)
unfolding remove_iterator keep
keep-In x y [] f i = i
keep-In x y (z ∷ l) f (inl e) = rw (e, f) (inl refl)
keep-In x y (z ∷ l) f (inr i) = in_if (not (ref_beq z y)) _ (keep-In x y l f i)
  where
    in_if : (b : Bool) (m : List Ref) → In x m → In x (if b then z ∷ m else m)
    in_if true m j = inr j
    in_if false m j = j

other_ref : (n : ℕ) (r : Ref) → r ≢ scan n → ref_beq (scan n) r ≡ false
other_ref n (scan m) d = elim (Bool-cases (n == m)) [
  | inl y ↦ absurd (d (ap scan (sym ((==_iff n m).0 y))))
  | inr z ↦ z
]
other_ref n (base m) d = refl
other_ref n (in_memory m) d = refl

-- What happens to the hub after `h` without a start or the end of the scan `n`: other iterators are
-- started, iterated and ended.
pub data Later (n : ℕ) (h : RunningHub) : RunningHub → Type 0 where
  at_once : Later n h h
  starts :
      {g after : RunningHub} (r : Ref) (e o : Option String)
      → Later n h g
      → r ≢ scan n
      → start_scan r e g ≡ ok (o, after)
      → Later n h after
  calls_next :
      {g : RunningHub} (m : ℕ) (before after : Iterator)
      → Later n h g
      → scan m ≢ scan n
      → Later n h (after_next before m after g)
  ends :
      {g after : RunningHub} (r : Ref)
      → Later n h g
      → r ≢ scan n
      → end_scan r g ≡ ok after
      → Later n h after

-- Another scan changes.
put-Stuck :
    (n m : ℕ) (it : Iterator) (g : RunningHub)
    → scan m ≢ scan n
    → Stuck n g
    → (put g.scans m it n).cancel ≡ false
unfolding put
put-Stuck n m it g d s = let f : (n == m) ≡ false = other_ref n (scan m) d in rw f s.1

start_scan-Stuck :
    (n : ℕ) (r : Ref) (e o : Option String) (g after : RunningHub)
    → r ≢ scan n
    → start_scan r e g ≡ ok (o, after)
    → Stuck n g
    → Stuck n after
unfolding start_scan add_iterator
start_scan-Stuck n (scan m) e o g after d p s = subst (Stuck n) (ap (λ x. x.1) (ok_injective p)) (
  inr (keep-In (scan n) (scan m) g.running (other_ref n (scan m) d) s.0),
  put-Stuck n m (started_as (start e (g.scans m)) (g.scans m)) g d s,
)
start_scan-Stuck n (base m) e o g after d p s = cc
start_scan-Stuck n (in_memory m) e o g after d p s =
    subst (Stuck n) (ap (λ x. x.1) (ok_injective p)) s

after_next-Stuck :
    (n m : ℕ) (before it : Iterator) (g : RunningHub)
    → scan m ≢ scan n
    → Stuck n g
    → Stuck n (after_next before m it g)
unfolding after_next removed
after_next-Stuck n m before it g d s =
    let c = put-Stuck n m it g d s in
    if-P (Stuck n) (is_started before.status && meets_end before.rows before.closed)
      (keep-In (scan n) (base m) g.running refl s.0, c) (s.0, c)

closing-Stuck :
    (n m : ℕ) (c : Go Iterator) (g after : RunningHub)
    → scan m ≢ scan n
    → (c >>= λ it. ok (record g { scans = put g.scans m it })) ≡ ok after
    → Stuck n g
    → Stuck n after
closing-Stuck n m panic g after d p s = cc
closing-Stuck n m (ok it) g after d p s =
    subst (Stuck n) (ok_injective p) (s.0, put-Stuck n m it g d s)

record_and_close-Stuck :
    (n : ℕ) (r : Ref) (g after : RunningHub)
    → r ≢ scan n
    → record_and_close r g ≡ ok after
    → Stuck n g
    → Stuck n after
unfolding record_and_close close_scan
record_and_close-Stuck n (scan m) g after d p s =
    closing-Stuck n m (close (g.scans m)) (record g { recorded = g.recorded ++ m ∷ [] }) after d p s
record_and_close-Stuck n (base m) g after d p s = cc
record_and_close-Stuck n (in_memory m) g after d p s = subst (Stuck n) (ok_injective p) s

ended-Stuck :
    (n : ℕ) (r : Ref) (x : Go RunningHub) (after : RunningHub)
    → r ≢ scan n
    → ((g : RunningHub) → x ≡ ok g → Stuck n g)
    → (x >>= λ g. ok (removed r g)) ≡ ok after
    → Stuck n after
unfolding removed
ended-Stuck n r panic after d h p = cc
ended-Stuck n r (ok g) after d h p =
    let s = h g refl in
    subst (Stuck n) (ok_injective p) (keep-In (scan n) r g.running (other_ref n r d) s.0, s.1)

end_scan-Stuck :
    (n : ℕ) (r : Ref) (g after : RunningHub)
    → r ≢ scan n
    → end_scan r g ≡ ok after
    → Stuck n g
    → Stuck n after
unfolding end_scan
end_scan-Stuck n r g after d p s =
    ended-Stuck n r (if is_started (status_of r g) then record_and_close r g else ok g) after d
      (if-P (λ x. (f : RunningHub) → x ≡ ok f → Stuck n f) (is_started (status_of r g))
        (λ f q. record_and_close-Stuck n r g f d q s) (λ f q. subst (Stuck n) (ok_injective q) s))
      p

Later-Stuck : {n : ℕ} {h g : RunningHub} → Later n h g → Stuck n h → Stuck n g
Later-Stuck at_once s = s
Later-Stuck {n = n} (starts r e o l d p) s = start_scan-Stuck n r e o _ _ d p (Later-Stuck l s)
Later-Stuck {n = n} (calls_next m before it l d) s =
    after_next-Stuck n m before it _ d (Later-Stuck l s)
Later-Stuck {n = n} (ends r l d p) s = end_scan-Stuck n r _ _ d p (Later-Stuck l s)

-- A scan whose execution failed is put into the table all the same, and StartScan reports no
-- error. Since the scan has no cancellation function, every Abort then panics, until that scan is
-- started again or ended: whatever other scans are started, iterated and ended meanwhile, and in
-- whichever order the table is visited.
pub failed_start_breaks_abort :
    (n : ℕ) (error : String) (o : Option String) (h failed g : RunningHub) (visited : List Ref)
    → (h.scans n).cancel ≡ false
    → start_scan (scan n) (some error) h ≡ ok (o, failed)
    → Later n failed g
    → ((r : Ref) → In r g.running → In r visited)
    → (o ≡ none) × (abort g ≡ panic) × (abort_loop visited g ≡ panic)
unfolding abort clear_running start_scan start started_as add_iterator
failed_start_breaks_abort n error o h failed g visited c e later all =
    let s = Later-Stuck later (
      subst (Stuck n) (ap (λ x. x.1) (ok_injective e))
        (inl refl, ap (λ it. it.cancel) (put_self h.scans n (h.scans n)) ∙ c)) in
    (
      sym (ap (λ x. x.0) (ok_injective e)),
      ap (λ x. x >>= λ f. ok (clear_running f)) (abort_loop-panics g.running n g s.0 s.1),
      abort_loop-panics visited n g (all (scan n) s.0) s.1,
    )
