-- ===== src/Hub/Running/Abort.antt =====
-- hub/hub_base.go: Abort closes every running scan, unless one of them failed to start.
use steampipe_postgres_fdw.Prelude.{
  if◌then◌else◌, Bool-cases, ◌==◌, nat_eq, string_eq, ==_refl, All, All-imp, Go, ok, panic, ◌>>=◌,
  ℕ, ◌≡◌, refl, sym, ap, ◌∙◌, subst, inl, inr, Bool, true, List, [], ◌∷◌, ◌++◌,
}
use steampipe_postgres_fdw.Hub.Iterator.Defs.{Iterator, close, is_error, error, complete}
use steampipe_postgres_fdw.Hub.Running.Defs.{
  Ref, scan, base, in_memory, RunningHub, put, close_scan, record_and_close, abort_loop, abort,
  clear_running,
}

-- An iterator of the table that Close can close: a scan that has its cancellation function.
unfoldable pub IsClosable : RunningHub → Ref → Type 0
IsClosable h (scan n) = (h.scans n).cancel ≡ true
IsClosable h (base n) = ⊥
IsClosable h (in_memory n) = Unit

closes :
    (b : Bool) (it : Iterator)
    → b ≡ true
    → ◌≡◌ {A = Go Iterator} (if b then ok it else panic) (ok it)
closes b it c = rw c refl

pub close-cancel :
    (it : Iterator)
    → it.cancel ≡ true
    → (after : Iterator) × (close it ≡ ok after) × (after.cancelled ≡ true) × (after.cancel ≡ true)
unfolding close is_error
close-cancel it c = (
  record it { cancelled = true; status = if is_error it.status then error else complete },
  closes it.cancel _ c,
  refl,
  c,
)

pub put_self {ℓ} : {A : Type ℓ} (f : ℕ → A) (n : ℕ) (a : A) → put f n a n ≡ a
unfolding put
put_self f n a = rw (==_refl n) refl

pub put-cases {ℓ κ} :
    {A : Type ℓ} (P : A → Type κ) (f : ℕ → A) (n m : ℕ) (a : A) → P a → P (f m) → P (put f n a m)
unfolding put
put-cases P f n m a p q = elim (Bool-cases (m == n)) [ inl y ↦ rw y p | inr z ↦ rw z q ]

scan_injective : {m n : ℕ} → scan m ≡ scan n → m ≡ n
scan_injective e = cc

-- What one round of the loop does to the scans.
pub record Round (h g : RunningHub) : Type 0 where
  keeps : (m : ℕ) → (h.scans m).cancel ≡ true → (g.scans m).cancel ≡ true
  stays : (m : ℕ) → (h.scans m).cancelled ≡ true → (g.scans m).cancelled ≡ true

record_and_close-Round :
    (h : RunningHub) (r : Ref)
    → IsClosable h r
    → (g : RunningHub) × (record_and_close r h ≡ ok g)
      × Round h g
      × ((m : ℕ) → r ≡ scan m → (g.scans m).cancelled ≡ true)
unfolding record_and_close close_scan IsClosable
record_and_close-Round h (scan n) c =
    let d = close-cancel (h.scans n) c in
    let h₁ = record h { recorded = h.recorded ++ n ∷ [] } in
    (
      record h₁ { scans = put h.scans n d.0 },
      ap (λ x. x >>= λ it. ok (record h₁ { scans = put h.scans n it })) d.1,
      record {
        keeps = λ m e. put-cases (λ it. it.cancel ≡ true) h.scans n m d.0 d.3 e;
        stays = λ m e. put-cases (λ it. it.cancelled ≡ true) h.scans n m d.0 d.2 e;
      },
      (λ m e.
          subst (λ k. (put h.scans n d.0 k).cancelled ≡ true) (scan_injective e)
            (subst (λ it. it.cancelled ≡ true) (sym (put_self h.scans n d.0)) d.2)),
    )
record_and_close-Round h (base n) c = elim c [ ]
record_and_close-Round h (in_memory n) c =
    (_, refl, record { keeps = λ m e. e; stays = λ m e. e }, (λ m e. cc))

-- A scan whose context was cancelled.
unfoldable pub IsClosed : RunningHub → Ref → Type 0
IsClosed g (scan n) = (g.scans n).cancelled ≡ true
IsClosed g (base n) = Unit
IsClosed g (in_memory n) = Unit

Round-IsClosable : (h g : RunningHub) → Round h g → (r : Ref) → IsClosable h r → IsClosable g r
unfolding IsClosable
Round-IsClosable h g k (scan n) c = k.keeps n c
Round-IsClosable h g k (base n) c = c
Round-IsClosable h g k (in_memory n) c = c

Round-IsClosed :
    (g f : RunningHub)
    → Round g f
    → (r : Ref) → ((m : ℕ) → r ≡ scan m → (g.scans m).cancelled ≡ true)
    → IsClosed f r
unfolding IsClosed
Round-IsClosed g f k (scan n) c = k.stays n (c n refl)
Round-IsClosed g f k (base n) c = tt
Round-IsClosed g f k (in_memory n) c = tt

emptied : (g : RunningHub) (r : Ref) → IsClosed g r → IsClosed (record g { running = [] }) r
unfolding IsClosed
emptied g (scan n) c = c
emptied g (base n) c = c
emptied g (in_memory n) c = c

abort_loop-closes :
    (l : List Ref) (h : RunningHub)
    → All (IsClosable h) l
    → (g : RunningHub) × (abort_loop l h ≡ ok g) × Round h g × All (IsClosed g) l
unfolding abort_loop
abort_loop-closes [] h c = (h, refl, record { keeps = λ m e. e; stays = λ m e. e }, tt)
abort_loop-closes (r ∷ l) h c =
    let one = record_and_close-Round h r c.0 in
    let rest =
      abort_loop-closes l one.0
        (All-imp (IsClosable h) (IsClosable one.0) (Round-IsClosable h one.0 one.2) l c.1) in
    (
      rest.0,
      ap (λ x. x >>= λ g. abort_loop l g) one.1 ∙ rest.1,
      record {
        keeps = λ m e. rest.2.keeps m (one.2.keeps m e);
        stays = λ m e. rest.2.stays m (one.2.stays m e);
      },
      (Round-IsClosed one.0 rest.0 rest.2 r one.3, rest.3),
    )

-- If every scan in the table was started, Abort returns, with the table empty and the context of
-- every scan that was in it cancelled.
pub abort_closes :
    (h : RunningHub)
    → All (IsClosable h) h.running
    → (g : RunningHub) × (abort h ≡ ok g) × (g.running ≡ []) × All (IsClosed g) h.running
unfolding abort IsClosed clear_running
abort_closes h c =
    let done = abort_loop-closes h.running h c in
    (
      record done.0 { running = [] },
      ap (λ x. x >>= λ g. ok (clear_running g)) done.1,
      refl,
      All-imp (IsClosed done.0) (IsClosed (record done.0 { running = [] })) (emptied done.0)
          h.running done.3,
    )
