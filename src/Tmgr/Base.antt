-- ===== src/Tmgr/Base.antt =====
-- The base class of the task manager's schedulers (src/radical/pilot/tmgr/scheduler/base.py): the
-- pilots that it knows, the tasks assigned to each, and the updates of pilot states.
--
-- Uids are numbers, since they are compared only. A task without a pilot has `none` for it, also where
-- the source has an empty text. The sandboxes of a task are those that the session gives for a pilot
-- and a task: a parameter, which can raise.
use radical_pilot.Prelude.{
  ℕ, ◌*◌, String, ℤ, Bool, true, false, not, ◌==◌, if◌then◌else◌, List, [], ◌∷◌, ◌++◌, Option, none,
  some, Result, ok, raise, value_error, type_error, ◌>>=◌, find, put,
}
use radical_pilot.States.Pilot.{PilotState, pilot_state_progress}
use radical_pilot.States.Pilot as States

-- `ADDED` and `REMOVED`.
pub data Role : Type 0 where
  added removed : Role

abbrev pub is_added : Option Role → Bool
is_added (some added) = true
is_added _ = false

-- The data that the backfilling scheduler keeps for a pilot.
pub record Info : Type 0 where
  pub cores : ℕ
  pub hwm : ℕ
  pub used : ℤ
  pub tasks : List ℕ
  pub done : List ℕ

-- A pilot as it is announced.
pub record Pilot : Type 0 where
  pub uid : ℕ
  pub cores : ℕ
  pub state : PilotState

-- `self._pilots[pid]`; an empty `info` is `none`.
pub record Entry : Type 0 where
  pub role : Option Role
  pub state : Option PilotState
  pub pilot : Option Pilot
  pub info : Option Info

pub record Task : Type 0 where
  pub uid : ℕ
  pub pilot : Option ℕ
  pub cpu_processes : ℕ
  pub cpu_threads : ℕ
  pub sandboxes : Option (List String)

-- The cores that a task needs.
abbrev pub task_cores : Task → ℕ
task_cores t = t.cpu_processes * t.cpu_threads

-- `self._early`, `self._pilots` and `self._tasks`.
pub record Base : Type 0 where
  pub early : List (ℕ × List Task)
  pub pilots : List (ℕ × Entry)
  pub tasks : List (ℕ × List ℕ)

-- `if k not in d: d[k] = list()`, then `d[k].append(v)`
unfoldable pub append_to {ℓ} : {V : Type ℓ} → ℕ → V → List (ℕ × List V) → List (ℕ × List V)
append_to k v [] = (k, v ∷ []) ∷ []
append_to k v ((j, vs) ∷ d) = if j == k then (j, vs ++ v ∷ []) ∷ d else (j, vs) ∷ append_to k v d

-- The sandboxes of a task on a pilot.
abbrev pub Sandboxes : Type 0
Sandboxes = Pilot → Task → Result (List String)

-- `_assign_pilot`
unfoldable pub assign_pilot : Sandboxes → Pilot → Task → Base → Result (Task × Base)
assign_pilot sandboxes pilot task b = do
  boxes ← sandboxes pilot (record task { pilot = some pilot.uid })
  ok (
    record task { pilot = some pilot.uid; sandboxes = some boxes },
    record b { tasks = append_to pilot.uid task.uid b.tasks },
  )

-- With `None` for the pilot, `pilot['uid']` is a `TypeError`.
unfoldable pub assign_known : Sandboxes → Option Pilot → Task → Base → Result (Task × Base)
assign_known sandboxes none task b = raise type_error
assign_known sandboxes (some pilot) task b = assign_pilot sandboxes pilot task b

abbrev pub new_entry : Entry
new_entry = record { role = none; state = none; pilot = none; info = none }

-- The entry of a pilot, or a new one.
abbrev pub entry_or_new : Option Entry → Entry
entry_or_new none = new_entry
entry_or_new (some e) = e

-- The place of a state in the list of states, to compare states by.
state_number : Option PilotState → ℕ
state_number none = 0
state_number (some States.new) = 1
state_number (some States.pmgr_launching_pending) = 2
state_number (some States.pmgr_launching) = 3
state_number (some States.pmgr_active_pending) = 4
state_number (some States.pmgr_active) = 5
state_number (some States.done) = 6
state_number (some States.failed) = 7
state_number (some States.canceled) = 8

-- The loop body of `_update_pilot_states`: the entries, and whether the state changed.
unfoldable pub update_pilot_state : Pilot → List (ℕ × Entry) → Result (List (ℕ × Entry) × Bool)
unfolding state_number
update_pilot_state pilot ps =
    let entry = entry_or_new (find pilot.uid ps) in
    do
      (target, passed) ← pilot_state_progress entry.state (some pilot.state)
      ok (
        put pilot.uid (record entry { state = target }) ps,
        not (state_number entry.state == state_number target),
      )

-- `_update_pilot_states`, without the call of `update_pilots`: the entries and `to_update`.
unfoldable pub update_pilot_states :
    List Pilot → List (ℕ × Entry) → Result (List (ℕ × Entry) × List ℕ)
update_pilot_states [] ps = ok (ps, [])
update_pilot_states (pilot ∷ pilots) ps = do
  (ps', changed) ← update_pilot_state pilot ps
  (qs, to_update) ← update_pilot_states pilots ps'
  ok (qs, if changed then pilot.uid ∷ to_update else to_update)

-- The first loop of `add_pilots` in `_base_command_cb`.
unfoldable pub add_roles : List Pilot → List (ℕ × Entry) → Result (List (ℕ × Entry))
add_roles [] ps = ok ps
add_roles (pilot ∷ pilots) ps =
    let entry = entry_or_new (find pilot.uid ps) in
    let rest =
      add_roles pilots
        (put pilot.uid (record entry { role = some added; pilot = some pilot }) ps) in
    if is_added entry.role then raise value_error else rest

-- The loop of `remove_pilots` in `_base_command_cb`.
unfoldable pub remove_roles : List ℕ → List (ℕ × Entry) → Result (List (ℕ × Entry))
remove_roles [] ps = ok ps
remove_roles (pid ∷ pids) ps =
    let entry = entry_or_new (find pid ps) in
    let rest = remove_roles pids (put pid (record entry { role = some removed }) ps) in
    if is_added entry.role then rest else raise value_error
