-- ===== src/Agent/Ordered/InOrder.antt =====
-- The order in which src/radical/pilot/agent/scheduler/continuous_ordered.py schedules tasks.
use radical_pilot.Prelude.{
  ℕ, zero, suc, ◌+◌, ◌<◌, ◌≤◌, true, false, Bool-cases, Option-cases, ◌==◌, ==_iff, List, [], ◌∷◌,
  Option, none, some, find, put, find-put_other, ◌≡◌, refl, sym, ap, ◌∙◌, subst, inl, inr, arith,
}
use radical_pilot.Agent.Ordered.{Order, complete, last_order, seek_at, mark_order, seek}

-- So many orders from a number on are there, and complete.
abbrev pub Completed : ℕ → ℕ → List (ℕ × Order) → Type 0
Completed current zero orders = Unit
Completed current (suc n) orders =
    ((o : Order) × (find current orders ≡ some o) × (complete o ≡ true))
    × Completed (suc current) n orders

-- Behind complete orders there is none, or one that is not complete.
pub data Stop (current n : ℕ) (orders : List (ℕ × Order)) : Option ℕ → Type 0 where
  no_order : find (current + n) orders ≡ none → Stop current n orders none
  open_order :
      (o : Order)
      → find (current + n) orders ≡ some o
      → complete o ≡ false
      → Stop current n orders (some (current + n))

-- The order found is left as it was.
abbrev pub Intact : Option ℕ → List (ℕ × Order) → List (ℕ × Order) → Type 0
Intact none orders orders' = Unit
Intact (some k) orders orders' = find k orders' ≡ find k orders

-- No order has a larger number than the last one.
find_last :
    (k : ℕ) (orders : List (ℕ × Order)) (o : Order) → find k orders ≡ some o → k ≤ last_order orders
unfolding find last_order
find_last k [] o h = cc
find_last k ((j, p) ∷ orders) o h = elim (Bool-cases (j == k)) [
  | inl e ↦ let same : j ≡ k = (==_iff j k).0 e in ground arith
  | inr e ↦ let le : k ≤ last_order orders = find_last k orders o (rw e at h) in ground arith
]

last_order-put :
    (k : ℕ) (o p : Order) (orders : List (ℕ × Order))
    → find k orders ≡ some o
    → last_order (put k p orders) ≡ last_order orders
unfolding find put last_order
last_order-put k o p [] h = cc
last_order-put k o p ((j, q) ∷ orders) h = elim (Bool-cases (j == k)) [
  | inl e ↦ rw e refl
  | inr e ↦ rw e (rw (last_order-put k o p orders (rw e at h)) refl)
]

apart : (j k : ℕ) → j < k → (j == k) ≡ false
apart j k h = ground arith

-- An order before them does not matter.
Completed-put :
    (j current n : ℕ) (p : Order) (orders : List (ℕ × Order))
    → j < current
    → Completed current n (put j p orders)
    → Completed current n orders
Completed-put j current zero p orders h c = tt
Completed-put j current (suc n) p orders h c =
    let ((o, e, d), rest) = c in
    (
      (o, sym (find-put_other j current p orders (apart j current h)) ∙ e, d),
      Completed-put j (suc current) n p orders (omega arith) rest,
    )

Stop-put :
    (j current n : ℕ) (p : Order) (orders : List (ℕ × Order)) (found : Option ℕ)
    → j < current
    → Stop current n (put j p orders) found
    → Stop current n orders found
Stop-put j current n p orders found h (no_order e) =
    no_order
      (sym (find-put_other j (current + n) p orders (apart j (current + n) (omega arith))) ∙ e)
Stop-put j current n p orders found h (open_order o e d) =
    open_order o
      (sym (find-put_other j (current + n) p orders (apart j (current + n) (omega arith))) ∙ e) d

Stop-none :
    (current : ℕ) (orders : List (ℕ × Order))
    → find current orders ≡ none
    → Stop current 0 orders none
Stop-none current orders e =
    let same : current + 0 ≡ current = omega arith in no_order (ap (λ k. find k orders) same ∙ e)

Stop-open :
    (current : ℕ) (orders : List (ℕ × Order)) (o : Order)
    → find current orders ≡ some o
    → complete o ≡ false
    → Stop current 0 orders (some current)
Stop-open current orders o e d =
    let same : current + 0 ≡ current = omega arith in
    subst (λ k. Stop current 0 orders (some k)) same
      (open_order o (ap (λ k. find k orders) same ∙ e) d)

Stop-back :
    (current n : ℕ) (orders : List (ℕ × Order)) (found : Option ℕ)
    → Stop (suc current) n orders found
    → Stop current (suc n) orders found
Stop-back current n orders found (no_order e) =
    let same : current + suc n ≡ suc current + n = omega arith in
    no_order (ap (λ k. find k orders) same ∙ e)
Stop-back current n orders found (open_order o e d) =
    let same : current + suc n ≡ suc current + n = omega arith in
    subst (λ k. Stop current (suc n) orders (some k)) same
      (open_order o (ap (λ k. find k orders) same ∙ e) d)

Intact-put :
    (j current n : ℕ) (p : Order) (orders orders' : List (ℕ × Order)) (found : Option ℕ)
    → j < current
    → Stop current n orders found
    → Intact found (put j p orders) orders'
    → Intact found orders orders'
Intact-put j current n p orders orders' found h (no_order e) i = tt
Intact-put j current n p orders orders' found h (open_order o e d) i =
    i ∙ find-put_other j (current + n) p orders (apart j (current + n) (omega arith))

-- What the search comes to.
pub record IsSought (current : ℕ) (orders : List (ℕ × Order)) (r : List (ℕ × Order) × Option ℕ)
    : Type 0 where
  pub passed : ℕ
  pub completed : Completed current passed orders
  pub stop : Stop current passed orders r.1
  pub intact : Intact r.1 orders r.0

one_on :
    (current : ℕ) (orders : List (ℕ × Order)) (o p : Order) (r : List (ℕ × Order) × Option ℕ)
    → find current orders ≡ some o
    → complete o ≡ true
    → IsSought (suc current) (put current p orders) r
    → IsSought current orders r
one_on current orders o p r e d h =
    let stop = Stop-put current (suc current) h.passed p orders r.1 (omega arith) h.stop in
    record {
      passed = suc h.passed;
      completed = (
        (o, e, d),
        Completed-put current (suc current) h.passed p orders (omega arith) h.completed,
      );
      stop = Stop-back current h.passed orders r.1 stop;
      intact =
          Intact-put current (suc current) h.passed p orders r.0 r.1 (omega arith) stop h.intact;
    }

-- On enough fuel the search passes the complete orders and stops where the loop breaks.
pub seek-IsSought :
    (fuel current : ℕ) (orders : List (ℕ × Order))
    → last_order orders < current + fuel
    → IsSought current orders (seek fuel current orders)
unfolding seek seek_at mark_order
seek-IsSought zero current orders h = elim (Option-cases (find current orders)) [
  | inl e ↦ record { passed = 0; completed = tt; stop = Stop-none current orders e; intact = tt }
  | inr (o, e) ↦ let le = find_last current orders o e in absurd (omega arith)
]
seek-IsSought (suc fuel) current orders h = elim (Option-cases (find current orders)) [
  | inl e ↦
      rw e (record { passed = 0; completed = tt; stop = Stop-none current orders e; intact = tt })
  | inr (o, e) ↦ elim (Bool-cases (complete o)) [
    | inr d ↦
        rw (e, d)
          (record {
            passed = 0;
            completed = tt;
            stop = Stop-open current orders o e d;
            intact = refl;
          })
    | inl d ↦
        let p : Order = record o { current = some (suc current) } in
        let same = last_order-put current o p orders e in
        rw (e, d)
          (one_on current orders o p _ e d
            (seek-IsSought fuel (suc current) (put current p orders) (omega arith)))
  ]
]
