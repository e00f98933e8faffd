-- ===== src/Tmgr/Backfilling/Updates.antt =====
-- How the backfilling scheduler (backfilling.py) reacts on updates of pilots and tasks, and the
-- callbacks of src/radical/pilot/tmgr/scheduler/base.py that lead to it.
use radical_pilot.Prelude.{
  ℕ, pos, ◌-ℤ◌, ltb_ℤ, leb_ℤ, Bool, true, false, not, ◌||◌, if◌then◌else◌, List, [], ◌∷◌, ◌++◌, map,
  Option, none, some, Result, ok, raise, key_error, runtime_error, ◌>>=◌, find, put,
}
use radical_pilot.States.Task.{TaskState, task_state_value, agent_executing}
use radical_pilot.Agent.Nodes.Marks.{elem}
use radical_pilot.Tmgr.Base.{
  Info, Pilot, Entry, Task, task_cores, Sandboxes, assign_pilot, add_roles, remove_roles,
  update_pilot_states,
}
use radical_pilot.Tmgr.Backfilling.{
  Settings, Backfilling, in_window, schedule_tasks, add_pilots, remove_pilots,
}

-- A task with the state that is reported.
pub record Report : Type 0 where
  pub task : Task
  pub state : TaskState

-- The data of a pilot on which a task is done.
abbrev pub discharge : Info → Task → Info
discharge i task = record i {
  done = i.done ++ task.uid ∷ [];
  used = i.used -ℤ pos (task_cores task);
}

-- A task of which the pilot does not know is an inconsistency, and so is a negative load.
unfoldable pub discharged : Report → Info → Result (Option Info)
discharged r i =
    if elem r.task.uid i.done
    then ok none
    else if leb_ℤ (task_state_value (some r.state)) (task_state_value (some agent_executing))
    then ok none
    else if not (elem r.task.uid i.tasks)
    then raise runtime_error
    else if ltb_ℤ (discharge i r.task).used (pos 0)
    then raise runtime_error
    else ok (some (discharge i r.task))

-- The entries after a report, and whether a task is done.
unfoldable pub store : ℕ → Entry → Option Info → List (ℕ × Entry) → List (ℕ × Entry) × Bool
store pid e none ps = (ps, false)
store pid e (some i) ps = (put pid (record e { info = some i }) ps, true)

unfoldable pub report_info :
    Report → ℕ → Entry → Option Info → List (ℕ × Entry) → Result (List (ℕ × Entry) × Bool)
report_info r pid e none ps = raise key_error
report_info r pid e (some i) ps = do i' ← discharged r i; ok (store pid e i' ps)

unfoldable pub report_on :
    Report → ℕ → Option Entry → List (ℕ × Entry) → Result (List (ℕ × Entry) × Bool)
report_on r pid none ps = ok (ps, false)
report_on r pid (some e) ps = report_info r pid e e.info ps

unfoldable pub report_of : Report → Option ℕ → List (ℕ × Entry) → Result (List (ℕ × Entry) × Bool)
report_of r none ps = ok (ps, false)
report_of r (some pid) ps = report_on r pid (find pid ps) ps

-- The loop body of `update_tasks`.
unfoldable pub report_task : Report → List (ℕ × Entry) → Result (List (ℕ × Entry) × Bool)
report_task r ps = report_of r r.task.pilot ps

unfoldable pub report_tasks : List Report → List (ℕ × Entry) → Result (List (ℕ × Entry) × Bool)
report_tasks [] ps = ok (ps, false)
report_tasks (r ∷ rs) ps = do
  (ps', here) ← report_task r ps
  (qs, there) ← report_tasks rs ps'
  ok (qs, here || there)

abbrev pub with_pilots : Backfilling → List (ℕ × Entry) → Backfilling
with_pilots s ps = record s { base = record s.base { pilots = ps } }

-- `update_tasks`
unfoldable pub update_tasks : Settings → Sandboxes → List Report → Backfilling → Result Backfilling
update_tasks cfg sandboxes reports s = do
  (ps, reschedule) ← report_tasks reports s.base.pilots
  if reschedule then schedule_tasks cfg sandboxes (with_pilots s ps) else ok (with_pilots s ps)

-- The loop of `update_pilots`, which stops at the first pilot that is eligible.
unfoldable pub any_in_window : Settings → List ℕ → List (ℕ × Entry) → Result Bool
any_in_window cfg [] ps = ok false
any_in_window cfg (pid ∷ pids) ps =
    let rest = any_in_window cfg pids ps in
    elim (find pid ps) [
      | none ↦ raise key_error
      | some e ↦ if in_window cfg e then ok true else rest
    ]

-- `update_pilots`
unfoldable pub update_pilots : Settings → Sandboxes → List ℕ → Backfilling → Result Backfilling
update_pilots cfg sandboxes pids s = do
  action ← any_in_window cfg pids s.base.pilots
  if action then schedule_tasks cfg sandboxes s else ok s

-- `if to_update: self.update_pilots(to_update)`
unfoldable pub notify_pilots : Settings → Sandboxes → List ℕ → Backfilling → Result Backfilling
notify_pilots cfg sandboxes [] s = ok s
notify_pilots cfg sandboxes (pid ∷ pids) s = update_pilots cfg sandboxes (pid ∷ pids) s

-- `_update_pilot_states`, with the call of `update_pilots`.
unfoldable pub pilots_changed : Settings → Sandboxes → List Pilot → Backfilling → Result Backfilling
pilots_changed cfg sandboxes pilots s = do
  (ps, to_update) ← update_pilot_states pilots s.base.pilots
  notify_pilots cfg sandboxes to_update (with_pilots s ps)

abbrev pub early_tasks : Option (List Task) → List Task
early_tasks none = []
early_tasks (some tasks) = tasks

-- The early-bound tasks of a pilot are assigned to it and advanced.
unfoldable pub assign_early : Sandboxes → Pilot → List Task → Backfilling → Result Backfilling
assign_early sandboxes pilot [] s = ok s
assign_early sandboxes pilot (task ∷ tasks) s = do
  (task', b) ← assign_pilot sandboxes pilot task s.base
  assign_early sandboxes pilot tasks (record s { base = b; advanced = s.advanced ++ task' ∷ [] })

-- The second loop of `add_pilots` in `_base_command_cb`.
unfoldable pub release_early : Sandboxes → List Pilot → Backfilling → Result Backfilling
release_early sandboxes [] s = ok s
release_early sandboxes (pilot ∷ pilots) s = do
  s' ← assign_early sandboxes pilot (early_tasks (find pilot.uid s.base.early)) s
  release_early sandboxes pilots s'

-- `add_pilots` in `_base_command_cb`.
unfoldable pub add_command : Settings → Sandboxes → List Pilot → Backfilling → Result Backfilling
add_command cfg sandboxes pilots s = do
  ps ← add_roles pilots s.base.pilots
  s' ← pilots_changed cfg sandboxes pilots (with_pilots s ps)
  s'' ← release_early sandboxes pilots s'
  add_pilots cfg sandboxes (map (λ (p : Pilot). p.uid) pilots) s''

-- `remove_pilots` in `_base_command_cb`.
unfoldable pub remove_command : List ℕ → Backfilling → Result Backfilling
remove_command pids s = do
  ps ← remove_roles pids s.base.pilots
  remove_pilots pids (with_pilots s ps)
