-- ===== src/Raptor/Marks.antt =====
-- The marks of busy cores and GPUs in src/radical/pilot/raptor/worker.py, counted by index.
use radical_pilot.Prelude.{
  times, ℕ, zero, suc, ◌+◌, ◌≤◌, ◌<◌, Bool, true, false, ◌==◌, ==_refl, if◌then◌else◌, List, [],
  ◌∷◌, length, ok, ◌≡◌, refl, ap, ◌∙◌, arith,
}
use radical_pilot.Raptor.{mark, count_free, free_one, free_all}

-- 1 for a busy entry, 0 for a free one and out of range.
unfoldable pub busy : ℕ → List Bool → ℕ
busy n [] = 0
busy zero (true ∷ xs) = 1
busy zero (false ∷ xs) = 0
busy (suc n) (x ∷ xs) = busy n xs

-- From index i on only entries from i on are listed.
mark_low : (k i n : ℕ) (xs : List Bool) → n < i → times n (mark k i xs).1 ≡ 0
unfolding mark times
mark_low zero i n xs h = refl
mark_low (suc k) i n [] h = refl
mark_low (suc k) i n (true ∷ xs) h = mark_low (suc k) (suc i) n xs (omega arith)
mark_low (suc k) i n (false ∷ xs) h =
    let rest : times n (mark k (suc i) xs).1 ≡ 0 = mark_low k (suc i) n xs (omega arith) in
    ground arith

times_here : (i : ℕ) (ns : List ℕ) → times (i + 0) (i ∷ ns) ≡ suc (times i ns)
unfolding times
times_here i ns =
    let one : (i == i) ≡ true = ==_refl i in
    let same : i + 0 ≡ i = omega arith in ap (λ j. times j (i ∷ ns)) same ∙ rw one (omega arith)

times_later : (i n : ℕ) (ns : List ℕ) → times (i + suc n) (i ∷ ns) ≡ times (suc i + n) ns
unfolding times
times_later i n ns =
    let apart : (i == suc i + n) ≡ false = ground arith in
    let same : i + suc n ≡ suc i + n = omega arith in
    ap (λ j. times j (i ∷ ns)) same ∙ rw apart (omega arith)

mark-busy_first :
    (k i : ℕ) (xs : List Bool)
    → times (i + 0) (i ∷ (mark k (suc i) xs).1) + busy 0 (false ∷ xs)
      ≡ busy 0 (true ∷ (mark k (suc i) xs).0)
unfolding busy
mark-busy_first k i xs =
    let low : times i (mark k (suc i) xs).1 ≡ 0 = mark_low k (suc i) i xs (omega arith) in
    let here = times_here i (mark k (suc i) xs).1 in omega arith

-- What is marked is listed once, and was free.
pub mark-busy :
    (k i n : ℕ) (xs : List Bool)
    → times (i + n) (mark k i xs).1 + busy n xs ≡ busy n (mark k i xs).0
unfolding mark times busy
mark-busy zero i n xs = omega arith
mark-busy (suc k) i n [] = omega arith
mark-busy (suc k) i zero (true ∷ xs) =
    let low : times i (mark (suc k) (suc i) xs).1 ≡ 0 =
      mark_low (suc k) (suc i) i xs (omega arith) in
    let same : i + 0 ≡ i = omega arith in rw (same, low) refl
mark-busy (suc k) i zero (false ∷ xs) = mark-busy_first k i xs
mark-busy (suc k) i (suc n) (true ∷ xs) =
    let same : i + suc n ≡ suc i + n = omega arith in rw same (mark-busy (suc k) (suc i) n xs)
mark-busy (suc k) i (suc n) (false ∷ xs) =
    ap (λ t. t + busy n xs) (times_later i n (mark k (suc i) xs).1) ∙ mark-busy k (suc i) n xs

-- As many are listed as asked for, where so many are free.
pub length-mark : (k i : ℕ) (xs : List Bool) → k ≤ count_free xs → length (mark k i xs).1 ≡ k
unfolding mark count_free
length-mark zero i xs h = refl
length-mark (suc k) i [] h = omega arith
length-mark (suc k) i (true ∷ xs) h = length-mark (suc k) (suc i) xs h
length-mark (suc k) i (false ∷ xs) h = ap (λ m. suc m) (length-mark k (suc i) xs (omega arith))

-- One entry fewer is busy.
free_first :
    (m : ℕ) (xs : List Bool) → busy m (false ∷ xs) + (if 0 == m then 1 else 0) ≡ busy m (true ∷ xs)
unfolding busy
free_first zero xs = refl
free_first (suc m) xs = ground arith

free_next :
    (n : ℕ) (x : Bool) (xs ys : List Bool)
    → ((m : ℕ) → busy m ys + (if n == m then 1 else 0) ≡ busy m xs)
    → (m : ℕ) → busy m (x ∷ ys) + (if suc n == m then 1 else 0) ≡ busy m (x ∷ xs)
unfolding busy
free_next n true xs ys h zero = ground arith
free_next n false xs ys h zero = ground arith
free_next n x xs ys h (suc m) =
    let k : busy m ys + (if n == m then 1 else 0) ≡ busy m xs = h m in ground arith

-- A busy entry can be freed.
free_one-busy :
    (n : ℕ) (xs : List Bool)
    → busy n xs ≡ 1
    → (ys : List Bool) × (free_one n xs ≡ ok ys)
      × ((m : ℕ) → busy m ys + (if n == m then 1 else 0) ≡ busy m xs)
unfolding free_one busy
free_one-busy n [] h = cc
free_one-busy zero (true ∷ xs) h = (false ∷ xs, refl, λ m. free_first m xs)
free_one-busy zero (false ∷ xs) h = cc
free_one-busy (suc n) (x ∷ xs) h =
    let (ys, e, f) = free_one-busy n xs h in (x ∷ ys, rw e refl, free_next n x xs ys f)

busy_le : (n : ℕ) (xs : List Bool) → busy n xs ≤ 1
unfolding busy
busy_le n [] = omega arith
busy_le zero (true ∷ xs) = omega arith
busy_le zero (false ∷ xs) = omega arith
busy_le (suc n) (x ∷ xs) = busy_le n xs

busy_one : (n : ℕ) (ns : List ℕ) (xs : List Bool) → times n (n ∷ ns) ≤ busy n xs → busy n xs ≡ 1
unfolding times
busy_one n ns xs h =
    let one : (n == n) ≡ true = ==_refl n in let le : busy n xs ≤ 1 = busy_le n xs in ground arith

rest_busy :
    (n : ℕ) (ns : List ℕ) (xs ys : List Bool) (m : ℕ)
    → busy m ys + (if n == m then 1 else 0) ≡ busy m xs
    → times m (n ∷ ns) ≤ busy m xs
    → times m ns ≤ busy m ys
unfolding times
rest_busy n ns xs ys m h k = omega arith

-- Entries that are listed no more often than they are busy can be freed one after the other.
pub free_all-busy :
    (ns : List ℕ) (xs : List Bool)
    → ((m : ℕ) → times m ns ≤ busy m xs)
    → (ys : List Bool) × (free_all ns xs ≡ ok ys) × ((m : ℕ) → busy m ys + times m ns ≡ busy m xs)
unfolding free_all times
free_all-busy [] xs h = (xs, refl, λ m. omega arith)
free_all-busy (n ∷ ns) xs h =
    let one : busy n xs ≡ 1 = busy_one n ns xs (h n) in
    let (ys, e, f) = free_one-busy n xs one in
    let (zs, g, k) = free_all-busy ns ys (λ m. rest_busy n ns xs ys m (f m) (h m)) in
    (zs, rw e g, λ m. let a = f m in let b = k m in omega arith)
