-- ===== src/Samples/States.antt =====
-- Runs of the state models of src/radical/pilot/states.py.
use radical_pilot.Prelude.{
  pos, ◌+ℤ◌, ◌-ℤ◌, ◌≤ℤ◌, range, true, false, ◌≡◌, refl, ◌⊎◌, List, [], ◌∷◌, map, All, Any, Option,
  none, some, ok, raise, value_error,
}
use radical_pilot.States.Passed.{look_up, move_on, run_steps}
use radical_pilot.States.Task.{
  TaskState, new, tmgr_scheduling_pending, tmgr_scheduling, agent_staging_output,
  tmgr_staging_output_pending, tmgr_staging_output, done, failed, task_state_value, task_state_inv,
  task_state_progress, task_state_collapse,
}
use radical_pilot.States.Task.Order.{
  task_state_progress-values, task_state_progress_latest, task_states_run, task_states_run-values,
}
use radical_pilot.States.Task.Refused.{contradicts, task_state_progress_refused}
use radical_pilot.States.Task.Collapse.{task_state_collapse_highest}
use radical_pilot.States.Pilot.{
  PilotState, pmgr_launching_pending, pmgr_launching, pmgr_active_pending, pmgr_active,
  pilot_state_value, pilot_state_inv, pilot_state_progress,
}
use radical_pilot.States.Pilot.Refused.{
  contradicts as pilot_contradicts, pilot_state_progress_refused,
}
use radical_pilot.States.Pilot.{pilot_state_collapse}
use radical_pilot.States.Pilot.Collapse.{pilot_state_collapse_highest}
use radical_pilot.States.Pilot.Order.{
  pilot_state_progress-values, pilot_state_progress_latest, pilot_states_run,
  pilot_states_run-values,
}

-- A task that skips a state.
abbrev scheduled : List (Option TaskState)
scheduled = some tmgr_scheduling_pending ∷ some tmgr_scheduling ∷ []

task_skips :
    task_state_progress (some new) (some tmgr_scheduling) ≡ ok (some tmgr_scheduling, scheduled)
unfolding task_state_progress move_on look_up range ◌+ℤ◌ ◌-ℤ◌ task_state_value task_state_inv
task_skips = refl

task_state_progress-values_example :
    map task_state_value scheduled
    ≡ range
        (task_state_value (some new) +ℤ pos 1)
        (task_state_value (some tmgr_scheduling) +ℤ pos 1)
task_state_progress-values_example =
    task_state_progress-values (some new) (some tmgr_scheduling) (some tmgr_scheduling) scheduled
      task_skips

task_state_progress_latest_example :
    (task_state_value (some new) ≤ℤ task_state_value (some tmgr_scheduling))
    × (task_state_value (some tmgr_scheduling) ≤ℤ task_state_value (some tmgr_scheduling))
    × ((some tmgr_scheduling ≡ some new) ⊎ (some tmgr_scheduling ≡ some tmgr_scheduling))
task_state_progress_latest_example =
    task_state_progress_latest (some new) (some tmgr_scheduling) (some tmgr_scheduling) scheduled
      task_skips

-- Reports that arrive out of order: the second one is late.
abbrev reports : List (Option TaskState)
reports = some tmgr_staging_output ∷ some tmgr_staging_output_pending ∷ some done ∷ []

abbrev announced : List (Option TaskState)
announced = some tmgr_staging_output_pending ∷ some tmgr_staging_output ∷ some done ∷ []

task_reports : task_states_run (some agent_staging_output) reports ≡ ok (some done, announced)
unfolding task_states_run run_steps task_state_progress move_on look_up range ◌+ℤ◌ ◌-ℤ◌
    task_state_value task_state_inv
task_reports = refl

task_states_run-values_example :
    map task_state_value announced
    ≡ range
        (task_state_value (some agent_staging_output) +ℤ pos 1)
        (task_state_value (some done) +ℤ pos 1)
task_states_run-values_example =
    task_states_run-values (some agent_staging_output) reports (some done) announced task_reports

task_state_progress_refused_example :
    (contradicts (some done) (some failed) ≡ true)
      × (task_state_progress (some done) (some failed) ≡ raise value_error)
    ⊎ (contradicts (some done) (some failed) ≡ false)
      × ((r : Option TaskState × List (Option TaskState)) × (task_state_progress
              (some done)
              (some failed)
            ≡ ok r))
task_state_progress_refused_example = task_state_progress_refused (some done) (some failed)

abbrev some_tasks : List TaskState
some_tasks = new ∷ failed ∷ tmgr_scheduling ∷ []

task_state_collapse_highest_example :
    ((task_state_collapse some_tasks ≡ none) × (some_tasks ≡ [])
      ⊎ Any (λ s. task_state_collapse some_tasks ≡ some s) some_tasks)
    × All
        (λ s. task_state_value (some s) ≤ℤ task_state_value (task_state_collapse some_tasks))
        some_tasks
task_state_collapse_highest_example = task_state_collapse_highest some_tasks

-- A pilot that skips a state.
abbrev launched : List (Option PilotState)
launched = some pmgr_active_pending ∷ some pmgr_active ∷ []

pilot_skips :
    pilot_state_progress (some pmgr_launching) (some pmgr_active) ≡ ok (some pmgr_active, launched)
unfolding pilot_state_progress move_on look_up range ◌+ℤ◌ ◌-ℤ◌ pilot_state_value pilot_state_inv
pilot_skips = refl

pilot_state_progress-values_example :
    map pilot_state_value launched
    ≡ range
        (pilot_state_value (some pmgr_launching) +ℤ pos 1)
        (pilot_state_value (some pmgr_active) +ℤ pos 1)
pilot_state_progress-values_example =
    pilot_state_progress-values (some pmgr_launching) (some pmgr_active) (some pmgr_active) launched
      pilot_skips

pilot_state_progress_latest_example :
    (pilot_state_value (some pmgr_launching) ≤ℤ pilot_state_value (some pmgr_active))
    × (pilot_state_value (some pmgr_active) ≤ℤ pilot_state_value (some pmgr_active))
    × ((some pmgr_active ≡ some pmgr_launching) ⊎ (some pmgr_active ≡ some pmgr_active))
pilot_state_progress_latest_example =
    pilot_state_progress_latest (some pmgr_launching) (some pmgr_active) (some pmgr_active) launched
      pilot_skips

pilot_reports :
    pilot_states_run (some pmgr_launching) (some pmgr_active ∷ some pmgr_launching_pending ∷ [])
    ≡ ok (some pmgr_active, launched)
unfolding pilot_states_run run_steps pilot_state_progress move_on look_up range ◌+ℤ◌ ◌-ℤ◌
    pilot_state_value pilot_state_inv
pilot_reports = refl

pilot_states_run-values_example :
    map pilot_state_value launched
    ≡ range
        (pilot_state_value (some pmgr_launching) +ℤ pos 1)
        (pilot_state_value (some pmgr_active) +ℤ pos 1)
pilot_states_run-values_example =
    pilot_states_run-values (some pmgr_launching)
      (some pmgr_active ∷ some pmgr_launching_pending ∷ []) (some pmgr_active) launched
      pilot_reports

pilot_state_progress_refused_example :
    (pilot_contradicts (some PilotState.failed) (some PilotState.canceled) ≡ true)
      × (pilot_state_progress (some PilotState.failed) (some PilotState.canceled)
          ≡ raise value_error)
    ⊎ (pilot_contradicts (some PilotState.failed) (some PilotState.canceled) ≡ false)
      × ((r : Option PilotState × List (Option PilotState)) × (pilot_state_progress
              (some PilotState.failed)
              (some PilotState.canceled)
            ≡ ok r))
pilot_state_progress_refused_example =
    pilot_state_progress_refused (some PilotState.failed) (some PilotState.canceled)

abbrev some_pilots : List PilotState
some_pilots = pmgr_launching ∷ pmgr_active ∷ []

pilot_state_collapse_highest_example :
    ((pilot_state_collapse some_pilots ≡ none) × (some_pilots ≡ [])
      ⊎ Any (λ s. pilot_state_collapse some_pilots ≡ some s) some_pilots)
    × All
        (λ s. pilot_state_value (some s) ≤ℤ pilot_state_value (pilot_state_collapse some_pilots))
        some_pilots
pilot_state_collapse_highest_example = pilot_state_collapse_highest some_pilots
