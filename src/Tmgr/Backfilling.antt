-- ===== src/Tmgr/Backfilling.antt =====
-- The backfilling scheduler: src/radical/pilot/tmgr/scheduler/backfilling.py, under the callbacks of
-- base.py that call it.
--
-- The wait pool is a dictionary from uids to tasks; here it is the list of its tasks.
pub mod Bounds
pub mod Kept
pub mod Updates
pub mod Steps
pub mod Entries
pub mod Commands
pub mod Messages
use radical_pilot.Prelude.{
  ℕ, ◌*◌, ◌/◌, ℤ, pos, ◌+ℤ◌, ◌-ℤ◌, ltb_ℤ, leb_ℤ, Bool, true, false, not, ◌||◌, ◌==◌, if◌then◌else◌,
  List, [], ◌∷◌, ◌++◌, map, Option, none, some, Result, ok, raise, value_error, key_error,
  runtime_error, type_error, ◌>>=◌, find, put,
}
use radical_pilot.States.Pilot.{pilot_state_value}
use radical_pilot.States.Task.{TaskState, task_state_value, agent_executing}
use radical_pilot.Agent.Nodes.Marks.{elem}
use radical_pilot.Tmgr.Base.{
  is_added, Info, Pilot, Entry, Task, task_cores, Base, Sandboxes, assign_known, add_roles,
  remove_roles, update_pilot_states,
}

-- The values that the environment sets: `_HWM`, `_BF_START_VAL` and `_BF_STOP_VAL`.
pub record Settings : Type 0 where
  pub hwm : ℕ
  pub start : ℤ
  pub stop : ℤ

-- `advanced` collects the tasks that were advanced to `TMGR_STAGING_INPUT_PENDING`.
pub record Backfilling : Type 0 where
  pub base : Base
  pub wait_pool : List Task
  pub pids : List ℕ
  pub advanced : List Task

-- `_configure`, on the base class's state.
abbrev pub configure : Base → Backfilling
configure b = record { base = b; wait_pool = []; pids = []; advanced = [] }

-- The state of a pilot lies in the window in which tasks are assigned.
unfoldable pub in_window : Settings → Entry → Bool
in_window cfg e =
    not (ltb_ℤ (pilot_state_value e.state) cfg.start || ltb_ℤ cfg.stop (pilot_state_value e.state))

-- `info['used'] < info['hwm']`
abbrev has_room : Option Info → Result Bool
has_room none = raise key_error
has_room (some i) = ok (ltb_ℤ i.used (pos i.hwm))

eligible : Settings → Option Entry → Result Bool
eligible cfg none = raise key_error
eligible cfg (some e) = elim e.role [
  | none ↦ ok false
  | some r ↦
      let room = has_room e.info in
      if is_added (some r) then (if in_window cfg e then room else ok false) else ok false
]

-- The first loop of `_schedule_tasks`.
unfoldable pub eligible_pids : Settings → List ℕ → List (ℕ × Entry) → Result (List ℕ)
unfolding eligible
eligible_pids cfg [] ps = ok []
eligible_pids cfg (pid ∷ pids) ps = do
  here ← eligible cfg (find pid ps)
  rest ← eligible_pids cfg pids ps
  ok (if here then pid ∷ rest else rest)

abbrev pub with_entry : Entry → Option Info → Result (Entry × Info)
with_entry e none = raise key_error
with_entry e (some i) = ok (e, i)

abbrev pub entry_info : Option Entry → Result (Entry × Info)
entry_info none = raise key_error
entry_info (some e) = with_entry e e.info

-- The first pilot with `info['used'] <= info['hwm']`.
unfoldable pub first_open : List ℕ → List (ℕ × Entry) → Result (Option (ℕ × Entry × Info))
first_open [] ps = ok none
first_open (pid ∷ pids) ps = do
  (e, i) ← entry_info (find pid ps)
  let rest = first_open pids ps
  if leb_ℤ i.used (pos i.hwm) then ok (some (pid, e, i)) else rest

-- `l.remove(x)`, for an `x` in the list.
unfoldable pub remove_first : ℕ → List ℕ → List ℕ
remove_first x [] = []
remove_first x (y ∷ ys) = if y == x then ys else y ∷ remove_first x ys

-- The variables of the loop over the wait pool.
pub record Loop : Type 0 where
  pub base : Base
  pub pids : List ℕ
  pub scheduled : List Task
  pub unscheduled : List Task

-- The data of the pilot once the task is assigned.
abbrev pub charge : Info → Task → Info
charge i task = record i {
  tasks = i.tasks ++ task.uid ∷ [];
  used = i.used +ℤ pos (task_cores task);
}

-- The task is assigned to the pilot found, or it stays.
unfoldable pub give : Sandboxes → Task → Loop → Option (ℕ × Entry × Info) → Result Loop
give sandboxes task l none = ok (record l { unscheduled = l.unscheduled ++ task ∷ [] })
give sandboxes task l (some (pid, e, i)) = do
  let i' = charge i task
  let pilots = put pid (record e { info = some i' }) l.base.pilots
  (task', base) ← assign_known sandboxes e.pilot task (record l.base { pilots = pilots })
  ok (record l {
    base = base;
    pids = if leb_ℤ (pos i'.hwm) i'.used then remove_first pid l.pids else l.pids;
    scheduled = l.scheduled ++ task' ∷ [];
  })

-- The loop over the wait pool. Without pilots left, no pilot is found for a task.
unfoldable pub assign_all : Sandboxes → List Task → Loop → Result Loop
assign_all sandboxes [] l = ok l
assign_all sandboxes (task ∷ tasks) l = do
  found ← first_open l.pids l.base.pilots
  l' ← give sandboxes task l found
  assign_all sandboxes tasks l'

abbrev pub start_loop : Backfilling → List ℕ → Loop
start_loop s pids = record { base = s.base; pids = pids; scheduled = []; unscheduled = [] }

abbrev pub end_loop : Backfilling → Loop → Backfilling
end_loop s l = record s {
  base = l.base;
  wait_pool = l.unscheduled;
  advanced = s.advanced ++ l.scheduled;
}

-- Nothing is done without eligible pilots.
unfoldable pub schedule_over : Sandboxes → Backfilling → List ℕ → Result Backfilling
schedule_over sandboxes s [] = ok s
schedule_over sandboxes s (pid ∷ pids) = do
  l ← assign_all sandboxes s.wait_pool (start_loop s (pid ∷ pids))
  ok (end_loop s l)

-- `_schedule_tasks`
unfoldable pub schedule_tasks : Settings → Sandboxes → Backfilling → Result Backfilling
schedule_tasks cfg sandboxes s = do
  pids ← eligible_pids cfg s.pids s.base.pilots
  schedule_over sandboxes s pids

-- `self._wait_pool[uid] = task`
unfoldable pub wait_for : Task → List Task → List Task
wait_for task [] = task ∷ []
wait_for task (t ∷ ts) = if t.uid == task.uid then task ∷ ts else t ∷ wait_for task ts

unfoldable pub wait_for_all : List Task → List Task → List Task
wait_for_all [] pool = pool
wait_for_all (task ∷ tasks) pool = wait_for_all tasks (wait_for task pool)

-- `_work`
unfoldable pub work : Settings → Sandboxes → List Task → Backfilling → Result Backfilling
work cfg sandboxes tasks s =
    schedule_tasks cfg sandboxes (record s { wait_pool = wait_for_all tasks s.wait_pool })

-- The custom data of a pilot, from its description.
abbrev pub with_info : Settings → Entry → Pilot → Entry
with_info cfg e p = record e {
  info = some (record {
    cores = p.cores;
    hwm = p.cores * cfg.hwm / 100;
    used = pos 0;
    tasks = [];
    done = [];
  });
}

abbrev pub add_info_of : Settings → Entry → Option Pilot → Result Entry
add_info_of cfg e none = raise type_error
add_info_of cfg e (some p) = ok (with_info cfg e p)

abbrev pub add_info : Settings → Option Entry → Result Entry
add_info cfg none = raise key_error
add_info cfg (some e) = add_info_of cfg e e.pilot

-- The loop of `add_pilots`.
unfoldable pub add_infos : Settings → List ℕ → List (ℕ × Entry) → Result (List (ℕ × Entry))
add_infos cfg [] ps = ok ps
add_infos cfg (pid ∷ pids) ps = do e ← add_info cfg (find pid ps); add_infos cfg pids (put pid e ps)

-- `add_pilots`
unfoldable pub add_pilots : Settings → Sandboxes → List ℕ → Backfilling → Result Backfilling
add_pilots cfg sandboxes pids s = do
  ps ← add_infos cfg pids s.base.pilots
  schedule_tasks cfg sandboxes
      (record s { base = record s.base { pilots = ps }; pids = s.pids ++ pids })

-- `remove_pilots`
unfoldable pub remove_pids : List ℕ → List ℕ → Result (List ℕ)
remove_pids [] known = ok known
remove_pids (pid ∷ pids) known =
    let rest = remove_pids pids (remove_first pid known) in
    if elem pid known then rest else raise value_error

unfoldable pub remove_pilots : List ℕ → Backfilling → Result Backfilling
remove_pilots pids s = do known ← remove_pids pids s.pids; ok (record s { pids = known })
