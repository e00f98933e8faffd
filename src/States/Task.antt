-- ===== src/States/Task.antt =====
-- The task state model of src/radical/pilot/states.py.
pub mod Order
pub mod Refused
pub mod Collapse
use radical_pilot.Prelude.{
  ℕ, ℤ, pos, negsuc, Bool, true, false, ◌&&◌, ◌||◌, ◌==◌, if◌then◌else◌, List, [], ◌∷◌, Option,
  none, some, Result, ok, raise, value_error, key_error, ltb_ℤ,
}
use radical_pilot.States.Passed.{move_on}
use radical_pilot.States.Highest.{any_state, highest}

pub data TaskState : Type 0 where
  new tmgr_scheduling_pending tmgr_scheduling : TaskState
  tmgr_staging_input_pending tmgr_staging_input agent_staging_input_pending : TaskState
  agent_staging_input agent_scheduling_pending agent_scheduling : TaskState
  agent_executing_pending agent_executing agent_staging_output_pending : TaskState
  agent_staging_output tmgr_staging_output_pending tmgr_staging_output : TaskState
  done failed canceled : TaskState

-- `a == b` for states
unfoldable pub task_state_discrete : Discrete (Option TaskState)
task_state_discrete = hlevel

-- `_task_state_values`; the key `None` is `none`.
unfoldable pub task_state_value : Option TaskState → ℤ
task_state_value none = negsuc 0
task_state_value (some new) = pos 0
task_state_value (some tmgr_scheduling_pending) = pos 1
task_state_value (some tmgr_scheduling) = pos 2
task_state_value (some tmgr_staging_input_pending) = pos 3
task_state_value (some tmgr_staging_input) = pos 4
task_state_value (some agent_staging_input_pending) = pos 5
task_state_value (some agent_staging_input) = pos 6
task_state_value (some agent_scheduling_pending) = pos 7
task_state_value (some agent_scheduling) = pos 8
task_state_value (some agent_executing_pending) = pos 9
task_state_value (some agent_executing) = pos 10
task_state_value (some agent_staging_output_pending) = pos 11
task_state_value (some agent_staging_output) = pos 12
task_state_value (some tmgr_staging_output_pending) = pos 13
task_state_value (some tmgr_staging_output) = pos 14
task_state_value (some done) = pos 15
task_state_value (some failed) = pos 15
task_state_value (some canceled) = pos 15

-- `_task_state_inv`: of the states with one value the last one stays; `raise` is a `KeyError`.
unfoldable pub task_state_inv : ℤ → Result (Option TaskState)
task_state_inv (negsuc n) = if n == 0 then ok none else raise key_error
task_state_inv (pos n) =
    if n == 0
    then ok (some new)
    else if n == 1
    then ok (some tmgr_scheduling_pending)
    else if n == 2
    then ok (some tmgr_scheduling)
    else if n == 3
    then ok (some tmgr_staging_input_pending)
    else if n == 4
    then ok (some tmgr_staging_input)
    else if n == 5
    then ok (some agent_staging_input_pending)
    else if n == 6
    then ok (some agent_staging_input)
    else if n == 7
    then ok (some agent_scheduling_pending)
    else if n == 8
    then ok (some agent_scheduling)
    else if n == 9
    then ok (some agent_executing_pending)
    else if n == 10
    then ok (some agent_executing)
    else if n == 11
    then ok (some agent_staging_output_pending)
    else if n == 12
    then ok (some agent_staging_output)
    else if n == 13
    then ok (some tmgr_staging_output_pending)
    else if n == 14
    then ok (some tmgr_staging_output)
    else if n == 15
    then ok (some canceled)
    else raise key_error

abbrev pub is_done : Option TaskState → Bool
is_done (some done) = true
is_done _ = false

abbrev pub is_failed : Option TaskState → Bool
is_failed (some failed) = true
is_failed _ = false

abbrev pub is_canceled : Option TaskState → Bool
is_canceled (some canceled) = true
is_canceled _ = false

-- `state in FINAL`
abbrev pub is_final : Option TaskState → Bool
is_final s = is_done s || is_failed s || is_canceled s

-- `_task_state_progress`: the new state and the states passed on the way.
unfoldable pub task_state_progress :
    Option TaskState → Option TaskState → Result (Option TaskState × List (Option TaskState))
task_state_progress current target =
    if is_canceled current && is_final target
    then ok (target, [])
    else if is_final current && is_final target
    then raise value_error
    else move_on task_state_value task_state_inv current target

-- `_task_state_collapse`
unfoldable pub task_state_collapse : List TaskState → Option TaskState
task_state_collapse states =
    if any_state is_done states
    then some done
    else if any_state is_failed states
    then some failed
    else if any_state is_canceled states
    then some canceled
    else highest task_state_value none states
