-- ===== src/Tmgr/RoundRobin.antt =====
-- The round robin scheduler: src/radical/pilot/tmgr/scheduler/round_robin.py.
--
-- Of a task whose assignment raised, the sandboxes are not looked at.
pub mod Kept
pub mod Turns
use radical_pilot.Prelude.{
  ℕ, zero, suc, leb, Bool, true, false, ◌==◌, if◌then◌else◌, List, [], ◌∷◌, ◌++◌, length, get_elem?,
  Option, none, some, Result, ok, raise, value_error, ◌>>=◌, find,
}
use radical_pilot.Agent.Nodes.Marks.{elem}
use radical_pilot.Tmgr.Base.{Pilot, Entry, Task, Base, Sandboxes, assign_known}
use radical_pilot.Tmgr.Backfilling.{remove_first}

-- `advanced` and `failed` collect the tasks that were advanced to `TMGR_STAGING_INPUT_PENDING` and to
-- `FAILED`.
pub record RoundRobin : Type 0 where
  pub base : Base
  pub wait_pool : List Task
  pub pids : List ℕ
  pub idx : ℕ
  pub advanced : List Task
  pub failed : List Task

-- `_configure`, on the base class's state.
abbrev pub configure : Base → RoundRobin
configure b = record { base = b; wait_pool = []; pids = []; idx = 0; advanced = []; failed = [] }

-- The variables of the loop of `_schedule_tasks`.
pub record Loop : Type 0 where
  pub base : Base
  pub idx : ℕ
  pub tasks_ok : List Task
  pub tasks_fail : List Task

-- A task whose assignment raised: its pilot is set first.
abbrev pub touched : Option Pilot → Task → Task
touched none task = task
touched (some pilot) task = record task { pilot = some pilot.uid }

-- What `try` does with the assignment.
unfoldable pub settle_task : Option Pilot → Task → Loop → Result (Task × Base) → Loop
settle_task pilot task l (ok (task', b)) = record l {
  base = b;
  tasks_ok = l.tasks_ok ++ task' ∷ [];
}
settle_task pilot task l (raise e) = record l {
  tasks_fail = l.tasks_fail ++ touched pilot task ∷ [];
}

-- With the entry of the pilot, if there is one: without it `idx` stays.
unfoldable pub assign_to : Sandboxes → ℕ → Option Entry → Task → Loop → Loop
assign_to sandboxes idx none task l = record l { idx = idx; tasks_fail = l.tasks_fail ++ task ∷ [] }
assign_to sandboxes idx (some e) task l =
    settle_task e.pilot task (record l { idx = suc idx })
      (assign_known sandboxes e.pilot task l.base)

-- The index of the pilot that is next.
abbrev pub next_idx : List ℕ → ℕ → ℕ
next_idx pids idx = if leb (length pids) idx then 0 else idx

abbrev pub entry_at : Option ℕ → List (ℕ × Entry) → Option Entry
entry_at none ps = none
entry_at (some pid) ps = find pid ps

-- The loop body. An index out of range would be an exception as well.
unfoldable pub assign_next : Sandboxes → List ℕ → Task → Loop → Loop
assign_next sandboxes pids task l =
    let idx = next_idx pids l.idx in
    assign_to sandboxes idx (entry_at (get_elem? pids idx) l.base.pilots) task l

unfoldable pub assign_all : Sandboxes → List ℕ → List Task → Loop → Loop
assign_all sandboxes pids [] l = l
assign_all sandboxes pids (task ∷ tasks) l =
    assign_all sandboxes pids tasks (assign_next sandboxes pids task l)

abbrev pub start_loop : RoundRobin → Loop
start_loop s = record { base = s.base; idx = s.idx; tasks_ok = []; tasks_fail = [] }

abbrev pub end_loop : RoundRobin → Loop → RoundRobin
end_loop s l = record s {
  base = l.base;
  idx = l.idx;
  advanced = s.advanced ++ l.tasks_ok;
  failed = s.failed ++ l.tasks_fail;
}

-- `_schedule_tasks`: without pilots, the tasks wait.
unfoldable pub schedule_over : Sandboxes → List ℕ → List Task → RoundRobin → RoundRobin
schedule_over sandboxes [] tasks s = record s { wait_pool = s.wait_pool ++ tasks }
schedule_over sandboxes (pid ∷ pids) tasks s =
    end_loop s (assign_all sandboxes (pid ∷ pids) tasks (start_loop s))

unfoldable pub schedule_tasks : Sandboxes → List Task → RoundRobin → RoundRobin
schedule_tasks sandboxes tasks s = schedule_over sandboxes s.pids tasks s

-- `add_pilots`
unfoldable pub add_pilots : Sandboxes → List ℕ → RoundRobin → RoundRobin
add_pilots sandboxes pids s =
    let s' = record s { pids = s.pids ++ pids } in
    elim s.wait_pool [
      | [] ↦ s'
      | task ∷ tasks ↦ schedule_tasks sandboxes (task ∷ tasks) (record s' { wait_pool = [] })
    ]

-- `remove_pilots`
unfoldable pub remove_pids : List ℕ → List ℕ → Result (List ℕ)
remove_pids [] known = ok known
remove_pids (pid ∷ pids) known =
    let rest = remove_pids pids (remove_first pid known) in
    if elem pid known then rest else raise value_error

unfoldable pub remove_pilots : List ℕ → RoundRobin → Result RoundRobin
remove_pilots pids s = do known ← remove_pids pids s.pids; ok (record s { pids = known })

-- The lists of the loop of `_work`.
pub record Sorted : Type 0 where
  pub base : Base
  pub scheduled : List Task
  pub unscheduled : List Task
  pub failed : List Task

-- The loop body of `_work` for a task with a pilot: an unknown one makes it fail.
unfoldable pub sort_bound : Sandboxes → Option Entry → Task → Sorted → Result Sorted
sort_bound sandboxes none task w = ok (record w { failed = w.failed ++ task ∷ [] })
sort_bound sandboxes (some e) task w = do
  (task', b) ← assign_known sandboxes e.pilot task w.base
  ok (record w { base = b; scheduled = w.scheduled ++ task' ∷ [] })

unfoldable pub sort_task : Sandboxes → Option ℕ → Task → Sorted → Result Sorted
sort_task sandboxes none task w = ok (record w { unscheduled = w.unscheduled ++ task ∷ [] })
sort_task sandboxes (some pid) task w = sort_bound sandboxes (find pid w.base.pilots) task w

unfoldable pub sort_tasks : Sandboxes → List Task → Sorted → Result Sorted
sort_tasks sandboxes [] w = ok w
sort_tasks sandboxes (task ∷ tasks) w = do
  w' ← sort_task sandboxes task.pilot task w
  sort_tasks sandboxes tasks w'

abbrev pub start_sort : RoundRobin → Sorted
start_sort s = record { base = s.base; scheduled = []; unscheduled = []; failed = [] }

abbrev pub end_sort : RoundRobin → Sorted → RoundRobin
end_sort s w = record s {
  base = w.base;
  advanced = s.advanced ++ w.scheduled;
  failed = s.failed ++ w.failed;
}

-- `if unscheduled: self._schedule_tasks(unscheduled)`
unfoldable pub schedule_rest : Sandboxes → List Task → RoundRobin → RoundRobin
schedule_rest sandboxes [] s = s
schedule_rest sandboxes (task ∷ tasks) s = schedule_tasks sandboxes (task ∷ tasks) s

-- `_work`
unfoldable pub work : Sandboxes → List Task → RoundRobin → Result RoundRobin
work sandboxes tasks s = do
  w ← sort_tasks sandboxes tasks (start_sort s)
  ok (schedule_rest sandboxes w.unscheduled (end_sort s w))
