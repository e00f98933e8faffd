-- ===== src/States/Task/Order.antt =====
-- The results of `_task_state_progress` of src/radical/pilot/states.py, and of calls in a row.
use radical_pilot.Prelude.{
  ℤ, pos, ◌≡◌, List, [], map, ◌⊎◌, inl, inr, Option, Result, ok, range, range_empty, ◌+ℤ◌, ◌≤ℤ◌,
  ≤ℤ_of_eq, refl, arith, Ascends, range-Ascends, ◌++◌, ◌∷◌,
}
use radical_pilot.States.Passed.{
  move_on, move_on-values, move_on_latest, move_on_ends, run_steps, run_steps-values,
}
use radical_pilot.States.Task.{TaskState, task_state_value, task_state_inv, task_state_progress}

inv_sound : (v : ℤ) (s : Option TaskState) → task_state_inv v ≡ ok s → task_state_value s ≡ v
unfolding task_state_inv task_state_value
inv_sound v s h = ground arith

-- A step corrects one final state to another, or moves on.
task_state_progress_cases :
    (c t n : Option TaskState) (passed : List (Option TaskState))
    → task_state_progress c t ≡ ok (n, passed)
    → (passed ≡ []) × (task_state_value c ≡ task_state_value t) × (n ≡ t)
      ⊎ (move_on task_state_value task_state_inv c t ≡ ok (n, passed))
unfolding task_state_progress task_state_value
task_state_progress_cases c t n passed h = ground arith

-- A step that does not raise announces, in their order, the states whose values lie between that of
-- the old state (left out) and that of the new state (with it), each of them once.
pub task_state_progress-values :
    (c t n : Option TaskState) (passed : List (Option TaskState))
    → task_state_progress c t ≡ ok (n, passed)
    → map task_state_value passed
      ≡ range (task_state_value c +ℤ pos 1) (task_state_value n +ℤ pos 1)
task_state_progress-values c t n passed h = elim (task_state_progress_cases c t n passed h) [
  | inl (e, f, g) ↦ rw (e, g, f, range_empty)
  | inr e ↦ move_on-values task_state_value task_state_inv inv_sound c t n passed e
]

-- The new state is the later one of the old state and the target.
pub task_state_progress_latest :
    (c t n : Option TaskState) (passed : List (Option TaskState))
    → task_state_progress c t ≡ ok (n, passed)
    → (task_state_value c ≤ℤ task_state_value n)
      × (task_state_value t ≤ℤ task_state_value n)
      × ((n ≡ c) ⊎ (n ≡ t))
task_state_progress_latest c t n passed h = elim (task_state_progress_cases c t n passed h) [
  | inl (e, f, g) ↦ rw g ((≤ℤ_of_eq f).0, omega arith, inr refl)
  | inr e ↦ move_on_latest task_state_value task_state_inv inv_sound c t n passed e
]

-- Targets are taken one by one; the states passed are collected.
unfoldable pub task_states_run :
    Option TaskState → List (Option TaskState) → Result (Option TaskState × List (Option TaskState))
task_states_run c ts = run_steps task_state_progress c ts

-- Over any sequence of targets that is taken without an exception, every state from the first one
-- (left out) to the last one is announced exactly once, and in its order.
pub task_states_run-values :
    (c : Option TaskState) (ts : List (Option TaskState)) (n : Option TaskState)
    (passed : List (Option TaskState))
    → task_states_run c ts ≡ ok (n, passed)
    → map task_state_value passed
      ≡ range (task_state_value c +ℤ pos 1) (task_state_value n +ℤ pos 1)
unfolding task_states_run
task_states_run-values c ts n passed h =
    (run_steps-values task_state_value task_state_progress task_state_progress-values
      (λ c t n passed h. (task_state_progress_latest c t n passed h).0) c ts n passed h).0

-- What a replay needs to know of a step: the states passed ascend from the old state, and end with the
-- new one.
pub task_state_progress-Ascends :
    (c t n : Option TaskState) (passed : List (Option TaskState))
    → task_state_progress c t ≡ ok (n, passed)
    → Ascends (task_state_value c) (map task_state_value passed)
task_state_progress-Ascends c t n passed h =
    rw (task_state_progress-values c t n passed h)
      (range-Ascends (task_state_value c) (task_state_value n +ℤ pos 1))

pub task_state_progress_ends :
    (c t n : Option TaskState) (passed : List (Option TaskState))
    → task_state_progress c t ≡ ok (n, passed)
    → (passed ≡ []) × ((n ≡ c) ⊎ (task_state_value c ≡ task_state_value t))
      ⊎ ((xs : List (Option TaskState)) × (passed ≡ xs ++ n ∷ []))
task_state_progress_ends c t n passed h = elim (task_state_progress_cases c t n passed h) [
  | inl (e, f, g) ↦ inl (e, inr f)
  | inr e ↦ elim (move_on_ends task_state_value task_state_inv c t n passed e) [
    | inl (z, w) ↦ inl (z, inl w)
    | inr x ↦ inr x
  ]
]
