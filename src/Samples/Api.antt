-- ===== src/Samples/Api.antt =====
-- Runs of the updates of tasks and of the wait for them (src/radical/pilot: task.py, task_manager.py).
use radical_pilot.Prelude.{
  ℕ, ◌+ℤ◌, ◌-ℤ◌, range, true, ◌≡◌, refl, ◌⊎◌, List, [], ◌∷◌, map, Option, none, some, ok, raise,
  value_error, find, put,
}
use radical_pilot.States.Passed.{move_on, look_up}
use radical_pilot.States.Replay.{move_to, shown, last_one}
use radical_pilot.States.Task.{
  TaskState, new, tmgr_scheduling_pending, tmgr_scheduling, agent_executing, done, failed,
  task_state_value, task_state_inv, task_state_progress, task_state_discrete,
}
use radical_pilot.States.Task.Refused.{contradicts}
use radical_pilot.Api.Tasks.{
  Fields, Task, TaskDict, TaskLog, set_attr, set_fields, update, replay, update_task, update_known,
  update_tasks,
}
use radical_pilot.Api.Tasks.Updates.{IsUpdated, update_task_total}
use radical_pilot.Api.Tasks.Log.{IsFollowed, update_tasks-IsFollowed, update_tasks_error}
use radical_pilot.Api.Wait.{
  wait_tasks, watch, check_again, check_value, earliest, states_or, uids_or, all_known, again,
  open_uids,
}
use radical_pilot.Api.Waited.{IsSettled, wait_tasks-IsSettled}

abbrev no_fields : Fields
no_fields = record {
  stdout = none;
  stderr = none;
  exit_code = none;
  pilot = none;
  resource_sandbox = none;
  pilot_sandbox = none;
  task_sandbox = none;
  client_sandbox = none;
}

abbrev on_pilot : Fields
on_pilot = record no_fields { pilot = some 2 }

abbrev fresh : Task
fresh = record { uid = 5; state = some new; fields = no_fields }

abbrev message : Option TaskState → TaskDict
message s = record { uid = 5; state = s; fields = on_pilot }

-- Two updates that skip states, and one of a task that is not known.
abbrev messages : List TaskDict
messages =
    message (some tmgr_scheduling)
    ∷ record (message (some done)) { uid = 9 }
    ∷ message (some failed)
    ∷ []

abbrev told : TaskLog
told = (5, some tmgr_scheduling_pending) ∷ (5, some tmgr_scheduling) ∷ (5, some failed) ∷ []

abbrev ended : Task
ended = record { uid = 5; state = some failed; fields = on_pilot }

messages_run : update_tasks ((5, fresh) ∷ []) messages ≡ ok ((5, ended) ∷ [], told)
unfolding update_tasks update_known update_task replay update set_fields set_attr find put shown
    last_one move_to task_state_discrete task_state_progress move_on look_up range ◌+ℤ◌ ◌-ℤ◌
    task_state_value task_state_inv
messages_run = refl

update_tasks-IsFollowed_example : IsFollowed 5 fresh messages ((5, ended) ∷ []) told
update_tasks-IsFollowed_example =
    update_tasks-IsFollowed ((5, fresh) ∷ []) ((5, ended) ∷ []) messages told 5 fresh (refl, tt)
      messages_run (unfold find in refl)

update_task_total_example :
    (contradicts (some new) (some failed) ≡ true)
      × (update_task fresh (message (some failed)) ≡ raise value_error)
    ⊎ ((t' : Task) × (states : List (Option TaskState)) × (update_task fresh (message (some failed))
          ≡ ok (t', states))
        × IsUpdated fresh (message (some failed)) t' states)
update_task_total_example = update_task_total fresh (message (some failed)) refl

-- A task that is done is reported to have failed.
abbrev finished : Task
finished = record { uid = 5; state = some done; fields = no_fields }

contradiction_raises :
    update_tasks ((5, finished) ∷ []) (message (some failed) ∷ []) ≡ raise value_error
unfolding update_tasks update_known update_task find task_state_discrete task_state_progress
contradiction_raises = refl

update_tasks_error_example : value_error ≡ value_error
update_tasks_error_example =
    update_tasks_error ((5, finished) ∷ []) (message (some failed) ∷ []) value_error (refl, tt)
      contradiction_raises

-- Two passes: the task is executed in the first one, and done in the second one.
abbrev executing : ℕ → Option TaskState
executing u = some agent_executing

abbrev all_done : ℕ → Option TaskState
all_done u = some done

wait_ends :
    wait_tasks ((5, fresh) ∷ []) [] [] (executing ∷ all_done ∷ []) all_done
    ≡ ok ([], some done ∷ [])
unfolding wait_tasks watch check_again again check_value earliest states_or uids_or open_uids
    all_known find task_state_value
wait_ends = refl

-- Task 5 is awaited to be done, which the second pass finds.
wait_tasks-IsSettled_example :
    (awaited left : List ℕ) × (awaited ≡ 5 ∷ [])
    × (wait_tasks
          ((5, fresh) ∷ (6, finished) ∷ [])
          (5 ∷ [])
          (done ∷ [])
          (executing ∷ all_done ∷ [])
          all_done
        ≡ ok (left, map all_done awaited))
    × ((u : ℕ) → IsSettled (done ∷ []) (executing ∷ all_done ∷ []) awaited left u)
wait_tasks-IsSettled_example =
    wait_tasks-IsSettled ((5, fresh) ∷ (6, finished) ∷ []) (5 ∷ []) (done ∷ [])
      (executing ∷ all_done ∷ []) all_done (unfold find in refl, tt)
