-- ===== src/States/Pilot/Refused.antt =====
-- The pairs of states for which `_pilot_state_progress` of src/radical/pilot/states.py raises.
use radical_pilot.Prelude.{
  ◌≡◌, refl, ◌⊎◌, inl, inr, Bool-cases, List, Bool, true, false, Option, none, some, Result, ok,
  raise, value_error, arith, range, ◌+ℤ◌, ◌-ℤ◌,
}
use radical_pilot.States.Passed.{look_up, move_on}
use radical_pilot.States.Pilot.{
  PilotState, new, done, failed, canceled, pilot_state_value, pilot_state_inv, pilot_state_progress,
}

abbrev is_ok {ℓ} : {A : Type ℓ} → Result A → Bool
is_ok (ok a) = true
is_ok (raise e) = false

move_on_total :
    (c t : Option PilotState) → is_ok (move_on pilot_state_value pilot_state_inv c t) ≡ true
unfolding move_on look_up range ◌+ℤ◌ ◌-ℤ◌ pilot_state_value pilot_state_inv
move_on_total none t = ground arith
move_on_total (some new) t = ground arith
move_on_total _ t = ground arith

ok_of_is_ok {ℓ} : {A : Type ℓ} (r : Result A) → is_ok r ≡ true → (a : A) × (r ≡ ok a)
ok_of_is_ok (ok a) h = (a, refl)
ok_of_is_ok (raise e) h = cc

-- The pairs of final states that contradict one another.
abbrev pub contradicts : Option PilotState → Option PilotState → Bool
contradicts (some done) (some failed) = true
contradicts (some done) (some canceled) = true
contradicts (some failed) (some canceled) = true
contradicts _ _ = false

pilot_state_progress-contradicts :
    (c t : Option PilotState)
    → contradicts c t ≡ true
    → pilot_state_progress c t ≡ raise value_error
unfolding pilot_state_progress
pilot_state_progress-contradicts c t h = ground arith

pilot_state_progress_fine :
    (c t : Option PilotState) → contradicts c t ≡ false → is_ok (pilot_state_progress c t) ≡ true
unfolding pilot_state_progress
pilot_state_progress_fine c t h = ground (arith, move_on_total c t)

-- A step raises a `ValueError` for the pairs of final states listed in `contradicts`, and for every
-- other pair it returns a result.
pub pilot_state_progress_refused :
    (c t : Option PilotState)
    → (contradicts c t ≡ true) × (pilot_state_progress c t ≡ raise value_error)
      ⊎ (contradicts c t ≡ false)
        × ((r : Option PilotState × List (Option PilotState)) × (pilot_state_progress c t ≡ ok r))
pilot_state_progress_refused c t = elim (Bool-cases (contradicts c t)) [
  | inl e ↦ inl (e, pilot_state_progress-contradicts c t e)
  | inr e ↦ inr (e, ok_of_is_ok _ (pilot_state_progress_fine c t e))
]
