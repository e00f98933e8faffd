-- ===== src/States/Task/Refused.antt =====
-- The pairs of states for which `_task_state_progress` of src/radical/pilot/states.py raises.
use radical_pilot.Prelude.{
  ◌≡◌, refl, ◌⊎◌, inl, inr, Bool-cases, List, Bool, true, false, Option, none, some, Result, ok,
  raise, value_error, arith, range, ◌+ℤ◌, ◌-ℤ◌,
}
use radical_pilot.States.Passed.{look_up, move_on}
use radical_pilot.States.Task.{
  TaskState, new, done, failed, canceled, task_state_value, task_state_inv, task_state_progress,
}

abbrev is_ok {ℓ} : {A : Type ℓ} → Result A → Bool
is_ok (ok a) = true
is_ok (raise e) = false

move_on_total :
    (c t : Option TaskState) → is_ok (move_on task_state_value task_state_inv c t) ≡ true
unfolding move_on look_up range ◌+ℤ◌ ◌-ℤ◌ task_state_value task_state_inv
move_on_total none t = ground arith
move_on_total (some new) t = ground arith
move_on_total _ t = ground arith

ok_of_is_ok {ℓ} : {A : Type ℓ} (r : Result A) → is_ok r ≡ true → (a : A) × (r ≡ ok a)
ok_of_is_ok (ok a) h = (a, refl)
ok_of_is_ok (raise e) h = cc

-- The pairs of final states that contradict one another.
abbrev pub contradicts : Option TaskState → Option TaskState → Bool
contradicts (some done) (some done) = true
contradicts (some done) (some failed) = true
contradicts (some done) (some canceled) = true
contradicts (some failed) (some done) = true
contradicts (some failed) (some failed) = true
contradicts (some failed) (some canceled) = true
contradicts _ _ = false

task_state_progress-contradicts :
    (c t : Option TaskState) → contradicts c t ≡ true → task_state_progress c t ≡ raise value_error
unfolding task_state_progress
task_state_progress-contradicts c t h = ground arith

task_state_progress_fine :
    (c t : Option TaskState) → contradicts c t ≡ false → is_ok (task_state_progress c t) ≡ true
unfolding task_state_progress
task_state_progress_fine c t h = ground (arith, move_on_total c t)

-- A step raises a `ValueError` for the pairs of final states listed in `contradicts`, and for every
-- other pair it returns a result.
pub task_state_progress_refused :
    (c t : Option TaskState)
    → (contradicts c t ≡ true) × (task_state_progress c t ≡ raise value_error)
      ⊎ (contradicts c t ≡ false)
        × ((r : Option TaskState × List (Option TaskState)) × (task_state_progress c t ≡ ok r))
task_state_progress_refused c t = elim (Bool-cases (contradicts c t)) [
  | inl e ↦ inl (e, task_state_progress-contradicts c t e)
  | inr e ↦ inr (e, ok_of_is_ok _ (task_state_progress_fine c t e))
]
