-- ===== src/Hub/Timing/Sorting.antt =====
-- Sorted lists of scans: what `take` and `drop` do to them, and where one more scan belongs.
use mathlib.Core.List.{Permᴰ}
use steampipe_postgres_fdw.Prelude.{
  ℕ, zero, suc, ◌≤◌, ◌<◌, true, false, List, [], ◌∷◌, ◌++◌, ◌≡◌, refl, sym, ◌∙◌, subst, ap, arith,
  length, take, All, All-imp, All-append,
}
use steampipe_postgres_fdw.Hub.Timing.Defs.{ScanMetadataRow, NotFaster, IsSorted, slower_than_last}

abbrev pub drop {ℓ} : {A : Type ℓ} → ℕ → List A → List A
drop zero xs = xs
drop (suc n) [] = []
drop (suc n) (x ∷ xs) = drop n xs

pub take-append-drop {ℓ} : {A : Type ℓ} (n : ℕ) (xs : List A) → take n xs ++ drop n xs ≡ xs
take-append-drop zero xs = refl
take-append-drop (suc n) [] = refl
take-append-drop (suc n) (x ∷ xs) = ap (λ l. x ∷ l) (take-append-drop n xs)

All-drop {ℓ κ} : {A : Type ℓ} (P : A → Type κ) (n : ℕ) (xs : List A) → All P xs → All P (drop n xs)
All-drop P zero xs h = h
All-drop P (suc n) [] h = tt
All-drop P (suc n) (x ∷ xs) h = All-drop P n xs h.1

pub All-take {ℓ κ} :
    {A : Type ℓ} (P : A → Type κ) (n : ℕ) (xs : List A) → All P xs → All P (take n xs)
All-take P zero xs h = tt
All-take P (suc n) [] h = tt
All-take P (suc n) (x ∷ xs) h = (h.0, All-take P n xs h.1)

pub All-perm {ℓ κ} :
    {A : Type ℓ} (P : A → Type κ) {xs ys : List A} → Permᴰ xs ys → All P ys → All P xs
All-perm P Permᴰ.nil h = tt
All-perm P (Permᴰ.cons e p) h = (subst P (sym e) h.0, All-perm P p h.1)
All-perm P (Permᴰ.swap e f) h = (subst P (sym e) h.1.0, (subst P (sym f) h.0, h.1.1))
All-perm P (Permᴰ.trans p q) h = All-perm P p (All-perm P q h)

-- Every row of `rows` took at least as long as every row of `rest`.
abbrev pub Above : List ScanMetadataRow → List ScanMetadataRow → Type 0
Above rows rest = All (λ r. All (NotFaster r) rest) rows

pub IsSorted-take : (n : ℕ) (l : List ScanMetadataRow) → IsSorted l → IsSorted (take n l)
IsSorted-take zero l h = tt
IsSorted-take (suc n) [] h = tt
IsSorted-take (suc n) (x ∷ l) h = (All-take (NotFaster x) n l h.0, IsSorted-take n l h.1)

pub Above-take-drop : (n : ℕ) (l : List ScanMetadataRow) → IsSorted l → Above (take n l) (drop n l)
Above-take-drop zero l h = tt
Above-take-drop (suc n) [] h = tt
Above-take-drop (suc n) (x ∷ l) h = (All-drop (NotFaster x) n l h.0, Above-take-drop n l h.1)

NotFaster-trans : (a b c : ScanMetadataRow) → NotFaster a b → NotFaster b c → NotFaster a c
NotFaster-trans a b c h k = omega arith

-- The last row of a sorted list is the fastest.
pub above_last :
    (row : ScanMetadataRow) (l : List ScanMetadataRow)
    → IsSorted l
    → slower_than_last row l ≡ false
    → All (λ r. NotFaster r row) l
above_last row [] s h = tt
above_last row (x ∷ []) s h = (ground arith, tt)
above_last row (x ∷ y ∷ l) s h =
    let rest = above_last row (y ∷ l) s.1 h in (NotFaster-trans x y row s.0.0 rest.0, rest)

pub last-Above :
    (row : ScanMetadataRow) (rest l : List ScanMetadataRow)
    → IsSorted l
    → slower_than_last row l ≡ true
    → Above l rest
    → 0 < length l
    → All (NotFaster row) rest
last-Above row rest [] s h a p = absurd (omega arith)
last-Above row rest (x ∷ []) s h a p =
    All-imp (NotFaster x) (NotFaster row) (λ b k. NotFaster-trans row x b (ground arith) k) rest a.0
last-Above row rest (x ∷ y ∷ l) s h a p = last-Above row rest (y ∷ l) s.1 h a.1 (omega arith)

-- Each kept row is at least as slow as one more row that is dropped.
pub Above-cons :
    (row : ScanMetadataRow) (rest l : List ScanMetadataRow)
    → All (λ r. NotFaster r row) l
    → Above l rest
    → Above l (row ∷ rest)
Above-cons row rest [] h a = tt
Above-cons row rest (x ∷ l) h a = ((h.0, a.0), Above-cons row rest l h.1 a.1)

pub Above-append : (l xs ys : List ScanMetadataRow) → Above l xs → Above l ys → Above l (xs ++ ys)
Above-append [] xs ys h k = tt
Above-append (x ∷ l) xs ys h k =
    (All-append (NotFaster x) xs ys h.0 k.0, Above-append l xs ys h.1 k.1)

pub length-perm {ℓ} : {A : Type ℓ} {xs ys : List A} → Permᴰ xs ys → length xs ≡ length ys
length-perm Permᴰ.nil = refl
length-perm (Permᴰ.cons e p) = ap suc (length-perm p)
length-perm (Permᴰ.swap e f) = refl
length-perm (Permᴰ.trans p q) = length-perm p ∙ length-perm q

pub length-take_long {ℓ} :
    {A : Type ℓ} (n : ℕ) (xs : List A) → n ≤ length xs → length (take n xs) ≡ n
length-take_long zero xs h = refl
length-take_long (suc n) [] h = absurd (omega arith)
length-take_long (suc n) (x ∷ xs) h = ap suc (length-take_long n xs (omega arith))
