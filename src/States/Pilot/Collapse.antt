-- ===== src/States/Pilot/Collapse.antt =====
-- The results of `_pilot_state_collapse` of src/radical/pilot/states.py.
use radical_pilot.Prelude.{
  ◌≡◌, refl, true, List, [], ◌∷◌, Option, none, some, ◌≤ℤ◌, ◌⊎◌, inl, inr, All, Any, Any-imp, arith,
  if_ind,
}
use radical_pilot.States.Highest.{any_state, highest, highest-le, highest-mem, any_state-mem}
use radical_pilot.States.Pilot.{
  PilotState, done, failed, canceled, pilot_state_value, pilot_state_collapse, is_done, is_failed,
  is_canceled,
}

value_le_final : (s : PilotState) → pilot_state_value (some s) ≤ℤ pilot_state_value (some done)
unfolding pilot_state_value
value_le_final s = ground arith

All-total {ℓ} : {A : Type ℓ} {P : A → Type 0} → ((a : A) → P a) → (xs : List A) → All P xs
All-total f [] = tt
All-total f (x ∷ xs) = (f x, All-total f xs)

is_done_lem : (s : PilotState) → is_done (some s) ≡ true → some done ≡ some s
is_done_lem s h = ground arith

is_failed_lem : (s : PilotState) → is_failed (some s) ≡ true → some failed ≡ some s
is_failed_lem s h = ground arith

is_canceled_lem : (s : PilotState) → is_canceled (some s) ≡ true → some canceled ≡ some s
is_canceled_lem s h = ground arith

value_ge_new : (s : PilotState) → ¬ (pilot_state_value (some s) ≤ℤ pilot_state_value none)
unfolding pilot_state_value
value_ge_new s = ground arith

abbrev Selects : List PilotState → Option PilotState → Type 0
Selects states r =
    ((r ≡ none) × (states ≡ []) ⊎ Any (λ s. r ≡ some s) states)
    × All (λ s. pilot_state_value (some s) ≤ℤ pilot_state_value r) states

highest-Selects :
    (states : List PilotState) → Selects states (highest pilot_state_value none states)
highest-Selects [] = (inl (unfold highest in refl, refl), tt)
highest-Selects (s ∷ states) =
    let (low, up) = highest-le pilot_state_value none (s ∷ states) in
    elim (highest-mem pilot_state_value none (s ∷ states)) [
      | inl e ↦ absurd (value_ge_new s (rw e at up.0))
      | inr m ↦ (inr m, up)
    ]

-- The state selected is that of the list, or `none` for the empty list, and no state of the list has
-- a higher value.
pub pilot_state_collapse_highest :
    (states : List PilotState)
    → ((pilot_state_collapse states ≡ none) × (states ≡ [])
        ⊎ Any (λ s. pilot_state_collapse states ≡ some s) states)
      × All
          (λ s. pilot_state_value (some s) ≤ℤ pilot_state_value (pilot_state_collapse states))
          states
unfolding pilot_state_collapse pilot_state_value
pilot_state_collapse_highest states =
    let all = All-total value_le_final states in
    if_ind (Selects states) (any_state is_done states)
      (λ h. (inr (Any-imp is_done_lem states (any_state-mem is_done states h)), all))
      λ _.
        if_ind (Selects states) (any_state is_failed states)
          (λ h. (inr (Any-imp is_failed_lem states (any_state-mem is_failed states h)), all))
          λ _.
            if_ind (Selects states) (any_state is_canceled states)
              (λ h.
                (inr (Any-imp is_canceled_lem states (any_state-mem is_canceled states h)), all))
              λ _. highest-Selects states
