-- ===== src/Agent/Continuous/Free.antt =====
-- The cores and GPUs in the slots that are found on a node (continuous.py).
use radical_pilot.Prelude.{
  ℕ, zero, suc, ◌+◌, ◌≤◌, ◌<◌, ◌≡◌, ◌≢◌, refl, sym, ap, ◌∙◌, inl, inr, true, ◌==◌, ==_of_ne, ==_iff,
  Bool-cases, List, [], ◌∷◌, ◌++◌, append_assoc, concat, get_elem?, take, All, All-imp, Option,
  some, String, arith,
}
use radical_pilot.Agent.Nodes.{Mark, free, busy, down, Node, Slot}
use radical_pilot.Agent.Nodes.Marks.{AllFree}
use radical_pilot.Agent.Nodes.Totals.{core_indices, gpu_indices}
use radical_pilot.Agent.Nodes.Release.{Offers}
use radical_pilot.Agent.Continuous.Find.{PerSlot}
use radical_pilot.Agent.Continuous.Picks.{free_from, all_cores, all_gpus, IsSlotOf}

-- Each index is below the ones behind it.
abbrev pub Increasing : List ℕ → Type 0
Increasing [] = Unit
Increasing (x ∷ xs) = All (λ y. x < y) xs × Increasing xs

module _ {A : Type 0} (P : A → Type 0) where
  All-take : (n : ℕ) (xs : List A) → All P xs → All P (take n xs)
  All-take zero xs h = tt
  All-take (suc n) [] h = tt
  All-take (suc n) (x ∷ xs) h = (h.0, All-take n xs h.1)

  pub All-split : (xs ys : List A) → All P (xs ++ ys) → All P xs × All P ys
  All-split [] ys h = (tt, h)
  All-split (x ∷ xs) ys h = let (l, r) = All-split xs ys h.1 in ((h.0, l), r)

Increasing-take : (n : ℕ) (xs : List ℕ) → Increasing xs → Increasing (take n xs)
Increasing-take zero xs h = tt
Increasing-take (suc n) [] h = tt
Increasing-take (suc n) (x ∷ xs) h = (All-take (λ y. x < y) n xs h.0, Increasing-take n xs h.1)

free_from-ge : (idx k : ℕ) (ms : List Mark) → idx ≤ k → All (λ i. idx ≤ i) (free_from k ms)
unfolding free_from
free_from-ge idx k [] h = tt
free_from-ge idx k (free ∷ ms) h = (h, free_from-ge idx (suc k) ms (omega arith))
free_from-ge idx k (busy ∷ ms) h = free_from-ge idx (suc k) ms (omega arith)
free_from-ge idx k (down ∷ ms) h = free_from-ge idx (suc k) ms (omega arith)

free_from-Increasing : (idx : ℕ) (ms : List Mark) → Increasing (free_from idx ms)
unfolding free_from
free_from-Increasing idx [] = tt
free_from-Increasing idx (free ∷ ms) =
    (free_from-ge (suc idx) (suc idx) ms (omega arith), free_from-Increasing (suc idx) ms)
free_from-Increasing idx (busy ∷ ms) = free_from-Increasing (suc idx) ms
free_from-Increasing idx (down ∷ ms) = free_from-Increasing (suc idx) ms

-- The mark that stands at an index counted from `idx`.
abbrev FreeAt : ℕ → List Mark → ℕ → Type 0
FreeAt idx ms i = (j : ℕ) × (i ≡ idx + j) × (get_elem? ms j ≡ some free)

FreeAt-cons :
    (idx : ℕ) (m : Mark) (ms : List Mark) (i : ℕ) → FreeAt (suc idx) ms i → FreeAt idx (m ∷ ms) i
FreeAt-cons idx m ms i (j, e, f) = (suc j, omega arith, f)

free_from-FreeAt : (idx : ℕ) (ms : List Mark) → All (FreeAt idx ms) (free_from idx ms)
unfolding free_from
free_from-FreeAt idx [] = tt
free_from-FreeAt idx (free ∷ ms) = (
  (0, omega arith, refl),
  All-imp (FreeAt-cons idx free ms) (free_from (suc idx) ms) (free_from-FreeAt (suc idx) ms),
)
free_from-FreeAt idx (busy ∷ ms) =
    All-imp (FreeAt-cons idx busy ms) (free_from (suc idx) ms) (free_from-FreeAt (suc idx) ms)
free_from-FreeAt idx (down ∷ ms) =
    All-imp (FreeAt-cons idx down ms) (free_from (suc idx) ms) (free_from-FreeAt (suc idx) ms)

FreeAt-zero : (ms : List Mark) (i : ℕ) → FreeAt 0 ms i → get_elem? ms i ≡ some free
FreeAt-zero ms i (j, e, f) = let z : i ≡ j = omega arith in rw z f

-- A first part of the free indices is free and increasing.
pub first_free :
    (n : ℕ) (ms : List Mark) (is : List ℕ) → is ≡ take n (free_from 0 ms) → AllFree ms is
first_free n ms is e = rw e (
    All-take (λ i. get_elem? ms i ≡ some free) n (free_from 0 ms)
      (All-imp (FreeAt-zero ms) (free_from 0 ms) (free_from-FreeAt 0 ms)))

pub first_Increasing :
    (n : ℕ) (ms : List Mark) (is : List ℕ) → is ≡ take n (free_from 0 ms) → Increasing is
first_Increasing n ms is e = rw e (Increasing-take n (free_from 0 ms) (free_from-Increasing 0 ms))

-- Slots whose cores and GPUs are free on their node are offered by it.
pub All-Offers :
    (path : Option String) (per : PerSlot) (node : Node) (slots : List Slot)
    → All (IsSlotOf path node per) slots
    → AllFree node.cores (all_cores slots)
    → AllFree node.gpus (all_gpus slots)
    → All (λ s. Offers s node) slots
All-Offers path per node [] h c g = tt
All-Offers path per node (slot ∷ slots) h c g =
    let (c', cs) = All-split _ (concat slot.core_map) (all_cores slots) c in
    let (g', gs) = All-split _ (concat slot.gpu_map) (all_gpus slots) g in
    ((sym h.0.uid, c', g'), All-Offers path per node slots h.1 cs gs)

pub core_indices-append :
    (xs ys : List Slot) (u : ℕ) → core_indices (xs ++ ys) u ≡ core_indices xs u ++ core_indices ys u
unfolding core_indices
core_indices-append [] ys u = refl
core_indices-append (x ∷ xs) ys u = elim (Bool-cases (u == x.uid)) [
  | inl e ↦ rw e (
      ap (λ l. concat x.core_map ++ l) (core_indices-append xs ys u)
      ∙ sym (append_assoc (concat x.core_map) (core_indices xs u) (core_indices ys u)))
  | inr e ↦ rw e (core_indices-append xs ys u)
]

pub gpu_indices-append :
    (xs ys : List Slot) (u : ℕ) → gpu_indices (xs ++ ys) u ≡ gpu_indices xs u ++ gpu_indices ys u
unfolding gpu_indices
gpu_indices-append [] ys u = refl
gpu_indices-append (x ∷ xs) ys u = elim (Bool-cases (u == x.uid)) [
  | inl e ↦ rw e (
      ap (λ l. concat x.gpu_map ++ l) (gpu_indices-append xs ys u)
      ∙ sym (append_assoc (concat x.gpu_map) (gpu_indices xs u) (gpu_indices ys u)))
  | inr e ↦ rw e (gpu_indices-append xs ys u)
]

-- Slots of other nodes name nothing on a node.
pub indices_elsewhere :
    (slots : List Slot) (u : ℕ)
    → All (λ (s : Slot). u ≢ s.uid) slots
    → (core_indices slots u ≡ []) × (gpu_indices slots u ≡ [])
unfolding core_indices gpu_indices
indices_elsewhere [] u h = (refl, refl)
indices_elsewhere (s ∷ slots) u h = rw (==_of_ne u s.uid h.0) (indices_elsewhere slots u h.1)

-- Slots of one node name on it all that they name.
pub indices_here :
    (slots : List Slot) (u : ℕ)
    → All (λ (s : Slot). s.uid ≡ u) slots
    → (core_indices slots u ≡ all_cores slots) × (gpu_indices slots u ≡ all_gpus slots)
unfolding core_indices gpu_indices
indices_here [] u h = (refl, refl)
indices_here (s ∷ slots) u h =
    let here : (u == s.uid) ≡ true = (==_iff u s.uid).1 (sym h.0) in
    let (c, g) = indices_here slots u h.1 in
    rw here (ap (λ l. concat s.core_map ++ l) c, ap (λ l. concat s.gpu_map ++ l) g)
