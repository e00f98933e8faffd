-- ===== src/Api/Tasks.antt =====
-- The updates of tasks: `Task._update` of src/radical/pilot/task.py and `TaskManager._update_tasks` of
-- src/radical/pilot/task_manager.py. A task is kept by its uid; log messages and the callbacks of the
-- application are left out, and what the callbacks are told is the log that is returned.
pub mod Updates
pub mod Named
pub mod Log
use radical_pilot.Prelude.{
  ℕ, ℤ, Bool, ◌||◌, ◌==◌, same, if◌then◌else◌, List, [], ◌∷◌, ◌++◌, map, Option, none, some, String,
  Result, ok, guard, assertion_error, ◌>>=◌, ◌>>◌, find, put,
}
use radical_pilot.States.Task.{
  TaskState, task_state_value, task_state_progress, is_failed, is_canceled, task_state_discrete,
}
use radical_pilot.States.Replay.{move_to, shown}

-- The fields that an update can set; `none` is `None`, also for a key that is missing.
pub record Fields : Type 0 where
  pub stdout : Option String
  pub stderr : Option String
  pub exit_code : Option ℤ
  pub pilot : Option ℕ
  pub resource_sandbox : Option String
  pub pilot_sandbox : Option String
  pub task_sandbox : Option String
  pub client_sandbox : Option String

-- A `Task`.
pub record Task : Type 0 where
  pub uid : ℕ
  pub state : Option TaskState
  pub fields : Fields

-- What is sent of a task.
pub record TaskDict : Type 0 where
  pub uid : ℕ
  pub state : Option TaskState
  pub fields : Fields

-- `if val is not None: setattr(…)`
unfoldable pub set_attr {ℓ} : {A : Type ℓ} → Option A → Option A → Option A
set_attr (some v) old = some v
set_attr none old = old

unfoldable pub set_fields : Fields → Fields → Fields
set_fields d t = record {
  stdout = set_attr d.stdout t.stdout;
  stderr = set_attr d.stderr t.stderr;
  exit_code = set_attr d.exit_code t.exit_code;
  pilot = set_attr d.pilot t.pilot;
  resource_sandbox = set_attr d.resource_sandbox t.resource_sandbox;
  pilot_sandbox = set_attr d.pilot_sandbox t.pilot_sandbox;
  task_sandbox = set_attr d.task_sandbox t.task_sandbox;
  client_sandbox = set_attr d.client_sandbox t.client_sandbox;
}

-- `in [rps.FAILED, rps.CANCELED]`
abbrev pub unchecked : Option TaskState → Bool
unchecked s = is_failed s || is_canceled s

-- `_update`
unfoldable pub update : Task → TaskDict → Result Task
update t d = do
  guard (d.uid == t.uid) assertion_error
  s ← move_to task_state_value unchecked t.state d.state
  ok (record { uid = t.uid; state = s; fields = set_fields d.fields t.fields })

-- `for s in passed: task_dict['state'] = s; _update(task_dict)`
unfoldable pub replay : Task → TaskDict → List (Option TaskState) → Result Task
replay t d [] = ok t
replay t d (s ∷ passed) = do t' ← update t (record d { state = s }); replay t' d passed

-- The update of a task that is known: the task, and the states to notify of.
unfoldable pub update_task : Task → TaskDict → Result (Task × List (Option TaskState))
update_task t d =
    if same task_state_discrete t.state d.state
    then ok (t, [])
    else (task_state_progress t.state d.state >>= λ next.
        replay t d (shown task_state_value unchecked next.0 next.1) >>= λ t'.
        ok (t', shown task_state_value unchecked next.0 next.1))

abbrev pub TaskLog : Type 0
TaskLog = List (ℕ × Option TaskState)

unfoldable pub update_known :
    List (ℕ × Task) → TaskDict → Option Task → Result (List (ℕ × Task) × TaskLog)
update_known tasks d none = ok (tasks, [])
update_known tasks d (some t) = do
  r ← update_task t d
  ok (put d.uid r.0 tasks, map (λ s. (d.uid, s)) r.1)

-- `_update_tasks`: the tasks, and `to_notify`.
unfoldable pub update_tasks : List (ℕ × Task) → List TaskDict → Result (List (ℕ × Task) × TaskLog)
update_tasks tasks [] = ok (tasks, [])
update_tasks tasks (d ∷ ds) = do
  one ← update_known tasks d (find d.uid tasks)
  rest ← update_tasks one.0 ds
  ok (rest.0, one.1 ++ rest.1)
