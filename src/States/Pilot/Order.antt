-- ===== src/States/Pilot/Order.antt =====
-- The results of `_pilot_state_progress` of src/radical/pilot/states.py, and of calls in a row.
use radical_pilot.Prelude.{
  ℤ, pos, ◌≡◌, List, [], map, ◌⊎◌, inl, inr, Option, Result, ok, range, range_empty, ◌+ℤ◌, ◌≤ℤ◌,
  ≤ℤ_of_eq, refl, arith, Ascends, range-Ascends, ◌++◌, ◌∷◌,
}
use radical_pilot.States.Passed.{
  move_on, move_on-values, move_on_latest, move_on_ends, run_steps, run_steps-values,
}
use radical_pilot.States.Pilot.{
  PilotState, pilot_state_value, pilot_state_inv, pilot_state_progress,
}

inv_sound : (v : ℤ) (s : Option PilotState) → pilot_state_inv v ≡ ok s → pilot_state_value s ≡ v
unfolding pilot_state_inv pilot_state_value
inv_sound v s h = ground arith

-- A step corrects one final state to another, or moves on.
pilot_state_progress_cases :
    (c t n : Option PilotState) (passed : List (Option PilotState))
    → pilot_state_progress c t ≡ ok (n, passed)
    → (passed ≡ []) × (pilot_state_value c ≡ pilot_state_value t) × (n ≡ t)
      ⊎ (move_on pilot_state_value pilot_state_inv c t ≡ ok (n, passed))
unfolding pilot_state_progress pilot_state_value
pilot_state_progress_cases c t n passed h = ground arith

-- A step that does not raise announces, in their order, the states whose values lie between that of
-- the old state (left out) and that of the new state (with it), each of them once.
pub pilot_state_progress-values :
    (c t n : Option PilotState) (passed : List (Option PilotState))
    → pilot_state_progress c t ≡ ok (n, passed)
    → map pilot_state_value passed
      ≡ range (pilot_state_value c +ℤ pos 1) (pilot_state_value n +ℤ pos 1)
pilot_state_progress-values c t n passed h = elim (pilot_state_progress_cases c t n passed h) [
  | inl (e, f, g) ↦ rw (e, g, f, range_empty)
  | inr e ↦ move_on-values pilot_state_value pilot_state_inv inv_sound c t n passed e
]

-- The new state is the later one of the old state and the target.
pub pilot_state_progress_latest :
    (c t n : Option PilotState) (passed : List (Option PilotState))
    → pilot_state_progress c t ≡ ok (n, passed)
    → (pilot_state_value c ≤ℤ pilot_state_value n)
      × (pilot_state_value t ≤ℤ pilot_state_value n)
      × ((n ≡ c) ⊎ (n ≡ t))
pilot_state_progress_latest c t n passed h = elim (pilot_state_progress_cases c t n passed h) [
  | inl (e, f, g) ↦ rw g ((≤ℤ_of_eq f).0, omega arith, inr refl)
  | inr e ↦ move_on_latest pilot_state_value pilot_state_inv inv_sound c t n passed e
]

-- Targets are taken one by one; the states passed are collected.
unfoldable pub pilot_states_run :
    Option PilotState
    → List (Option PilotState)
    → Result (Option PilotState × List (Option PilotState))
pilot_states_run c ts = run_steps pilot_state_progress c ts

-- Over any sequence of targets that is taken without an exception, every state from the first one
-- (left out) to the last one is announced exactly once, and in its order.
pub pilot_states_run-values :
    (c : Option PilotState) (ts : List (Option PilotState)) (n : Option PilotState)
    (passed : List (Option PilotState))
    → pilot_states_run c ts ≡ ok (n, passed)
    → map pilot_state_value passed
      ≡ range (pilot_state_value c +ℤ pos 1) (pilot_state_value n +ℤ pos 1)
unfolding pilot_states_run
pilot_states_run-values c ts n passed h =
    (run_steps-values pilot_state_value pilot_state_progress pilot_state_progress-values
      (λ c t n passed h. (pilot_state_progress_latest c t n passed h).0) c ts n passed h).0

-- What a replay needs to know of a step: the states passed ascend from the old state, and end with the
-- new one.
pub pilot_state_progress-Ascends :
    (c t n : Option PilotState) (passed : List (Option PilotState))
    → pilot_state_progress c t ≡ ok (n, passed)
    → Ascends (pilot_state_value c) (map pilot_state_value passed)
pilot_state_progress-Ascends c t n passed h =
    rw (pilot_state_progress-values c t n passed h)
      (range-Ascends (pilot_state_value c) (pilot_state_value n +ℤ pos 1))

pub pilot_state_progress_ends :
    (c t n : Option PilotState) (passed : List (Option PilotState))
    → pilot_state_progress c t ≡ ok (n, passed)
    → (passed ≡ []) × ((n ≡ c) ⊎ (pilot_state_value c ≡ pilot_state_value t))
      ⊎ ((xs : List (Option PilotState)) × (passed ≡ xs ++ n ∷ []))
pilot_state_progress_ends c t n passed h = elim (pilot_state_progress_cases c t n passed h) [
  | inl (e, f, g) ↦ inl (e, inr f)
  | inr e ↦ elim (move_on_ends pilot_state_value pilot_state_inv c t n passed e) [
    | inl (z, w) ↦ inl (z, inl w)
    | inr x ↦ inr x
  ]
]
